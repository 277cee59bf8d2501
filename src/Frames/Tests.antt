-- ===== src/Frames/Tests.antt =====
-- state.go: call frames at work.
use gopher_lua.Prelude.{
  ℕ, ◌<◌, ◌≡◌, refl, set, replicate, arith, ◌⊎◌, inl, inr, some, none, zero, suc,
}
use gopher_lua.Prelude.Int.{pos}
use gopher_lua.Prelude.Result.{ok}
use gopher_lua.Frames.{
  CallFrameStack, stack_overflow, call_stack_size, no_frame, push_frame, pop_frame, remove_frame,
}
use gopher_lua.Frames.Laws.{
  IsNumbered, frame_at, push_frame-IsNumbered, pop_frame-push_frame, remove_frame_lem,
}

-- A stack with three frames in use
abbrev three_frames : CallFrameStack
three_frames = record {
  frames =
      set
        (set (replicate call_stack_size no_frame) 1 (record no_frame { idx = 1; parent = some 0 }))
        2 (record no_frame { idx = 2; parent = some 1; pc = pos 7 });
  sp = 3;
}

three_frames-IsNumbered : IsNumbered three_frames
three_frames-IsNumbered = record { capacity = refl; in_capacity = omega arith; own_slot = numbered }
  where
    numbered : (j : ℕ) → j < 3 → (frame_at three_frames j).idx ≡ j
    numbered zero h = refl
    numbered (suc zero) h = refl
    numbered (suc (suc zero)) h = refl
    numbered (suc (suc (suc j))) h = absurd (omega arith)

push_frame-IsNumbered_example :
    ((3 ≡ call_stack_size) × (push_frame no_frame three_frames ≡ ok (inl stack_overflow)))
    ⊎ ((cs : CallFrameStack) × (push_frame no_frame three_frames ≡ ok (inr cs))
        × IsNumbered cs
        × (cs.sp ≡ 4))
push_frame-IsNumbered_example = push_frame-IsNumbered no_frame three_frames three_frames-IsNumbered

pop_frame-push_frame_example :
    (pushed popped : CallFrameStack) × (push_frame no_frame three_frames ≡ ok (inr pushed))
    × (pop_frame pushed ≡ ok (3, popped))
    × (frame_at pushed 3 ≡ record no_frame { idx = 3 })
    × (popped.sp ≡ 3)
    × ((j : ℕ) → j < 3 → frame_at popped j ≡ frame_at three_frames j)
pop_frame-push_frame_example =
    pop_frame-push_frame no_frame three_frames three_frames-IsNumbered (omega arith)

remove_frame_lem_example :
    (cs : CallFrameStack) × (remove_frame 1 three_frames ≡ ok cs)
    × IsNumbered cs
    × (cs.sp ≡ 2)
    × (frame_at cs 1 ≡ record (frame_at three_frames 2) { idx = 1; parent = none })
    × ((j : ℕ) → j < 1 → frame_at cs j ≡ frame_at three_frames j)
remove_frame_lem_example = remove_frame_lem 1 three_frames three_frames-IsNumbered (omega arith)
