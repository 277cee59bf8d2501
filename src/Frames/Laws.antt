-- ===== src/Frames/Laws.antt =====
-- state.go: what the operations on call frames do.
use gopher_lua.Prelude.{
  ℕ, zero, suc, ◌+◌, ◌-◌, ◌≤◌, ◌<◌, ◌≡◌, refl, ◌∙◌, Bool-cases, ap, List, length, get_or, set,
  arith, ltb, Option, none, some, ◌==◌, if◌then◌else◌, get_or-set_self, get_or-set_ne, length-set,
  inl, inr, ◌⊎◌, set-set, false, true,
}
use gopher_lua.Prelude.Result.{ok}
use gopher_lua.Registry.Loops.{read_in, write_in, get_or-set}
use gopher_lua.Frames.{
  CallFrame, CallFrameStack, stack_overflow, call_stack_size, no_frame, push_frame, pop_frame,
  remove_loop, remove_frame, link_next,
}

-- The frame in a slot
abbrev pub frame_at : CallFrameStack → ℕ → CallFrame
frame_at cs j = get_or cs.frames j no_frame

-- The array has its fixed length, and each frame in use knows its slot.
pub record IsNumbered (cs : CallFrameStack) : Type 0 where
  pub capacity : length cs.frames ≡ call_stack_size
  pub in_capacity : cs.sp ≤ call_stack_size
  pub own_slot : (j : ℕ) → j < cs.sp → (frame_at cs j).idx ≡ j

pub push_frame_in :
    (v : CallFrame) (cs : CallFrameStack)
    → length cs.frames ≡ call_stack_size
    → cs.sp < call_stack_size
    → push_frame v cs
      ≡ ok
          (inr (record { frames = set cs.frames cs.sp (record v { idx = cs.sp }); sp = cs.sp + 1 }))
unfolding push_frame
push_frame_in v cs h k =
    let room : (cs.sp == call_stack_size) ≡ false = ground arith in
    rw room rw (write_in no_frame cs.frames cs.sp v (omega arith)) rw
      (write_in no_frame (set cs.frames cs.sp v) cs.sp (record v { idx = cs.sp })
        (rw length-set (omega arith)))
      rw set-set refl

push_frame_full :
    (v : CallFrame) (cs : CallFrameStack)
    → cs.sp ≡ call_stack_size
    → push_frame v cs ≡ ok (inl stack_overflow)
unfolding push_frame
push_frame_full v cs h = let full : (cs.sp == call_stack_size) ≡ true = ground arith in rw full refl

-- Push fails exactly on a full stack, and else keeps the numbering of the frames.
pub push_frame-IsNumbered :
    (v : CallFrame) (cs : CallFrameStack)
    → IsNumbered cs
    → ((cs.sp ≡ call_stack_size) × (push_frame v cs ≡ ok (inl stack_overflow)))
      ⊎ ((cs' : CallFrameStack) × (push_frame v cs ≡ ok (inr cs'))
          × IsNumbered cs'
          × (cs'.sp ≡ cs.sp + 1))
push_frame-IsNumbered v cs w =
    let size = w.capacity in
    let v' = record v { idx = cs.sp } in
    elim (Bool-cases (ltb cs.sp call_stack_size)) [
      | inl room ↦ inr (
        record { frames = set cs.frames cs.sp v'; sp = cs.sp + 1 },
        push_frame_in v cs w.capacity (ground arith),
        record {
          capacity = length-set cs.frames cs.sp v' ∙ w.capacity;
          in_capacity = ground arith;
          own_slot = λ j q. ground (arith, w.own_slot j, get_or-set no_frame cs.frames cs.sp v' j);
        },
        refl,
      )
      | inr full ↦
          let top : cs.sp ≡ call_stack_size = ground (arith, w.in_capacity) in
          inl (top, push_frame_full v cs top)
    ]

-- Popping after a push on a stack with room returns the slot of the pushed frame and leaves the
-- frames that were in use before.
pub pop_frame-push_frame :
    (v : CallFrame) (cs : CallFrameStack)
    → IsNumbered cs
    → cs.sp < call_stack_size
    → (pushed popped : CallFrameStack) × (push_frame v cs ≡ ok (inr pushed))
      × (pop_frame pushed ≡ ok (cs.sp, popped))
      × (frame_at pushed cs.sp ≡ record v { idx = cs.sp })
      × (popped.sp ≡ cs.sp)
      × ((j : ℕ) → j < cs.sp → frame_at popped j ≡ frame_at cs j)
unfolding pop_frame
pop_frame-push_frame v cs w h =
    let a = set cs.frames cs.sp (record v { idx = cs.sp }) in
    let full = w.capacity in
    let some_left : (cs.sp + 1 == 0) ≡ false = ground arith in
    let back : cs.sp + 1 - 1 ≡ cs.sp = omega arith in
    (
      record { frames = a; sp = cs.sp + 1 },
      record { frames = a; sp = cs.sp },
      push_frame_in v cs w.capacity h,
      rw some_left rw back rw (read_in no_frame a cs.sp (rw length-set (omega arith))) refl,
      get_or-set_self cs.frames cs.sp (record v { idx = cs.sp }) no_frame (omega arith),
      refl,
      λ j q. get_or-set_ne cs.frames cs.sp j (record v { idx = cs.sp }) no_frame (omega arith),
    )

-- Past the first round the loop of `Remove` stops, since the body lowered `cs.sp`.
remove_loop_stops : (n i : ℕ) (cs : CallFrameStack) → cs.sp ≤ i + 1 → remove_loop n i cs ≡ ok cs
unfolding remove_loop
remove_loop_stops zero i cs h = refl
remove_loop_stops (suc n) i cs h =
    let over : ltb (i + 1) cs.sp ≡ false = ground arith in rw over refl

remove_loop_once :
    (n i : ℕ) (cs : CallFrameStack)
    → 0 < n
    → i + 1 < cs.sp
    → cs.sp ≤ length cs.frames
    → remove_loop n i cs
      ≡ ok (record { frames = set cs.frames i (record (frame_at cs (i + 1)) { idx = i }); sp = i })
unfolding remove_loop
remove_loop_once zero i cs z h k = absurd (omega arith)
remove_loop_once (suc n) i cs z h k =
    let more : ltb (i + 1) cs.sp ≡ true = ground arith in
    let v = frame_at cs (i + 1) in
    rw more rw (read_in no_frame cs.frames (i + 1) (omega arith)) rw
      (write_in no_frame cs.frames i v (omega arith)) rw
      (write_in no_frame (set cs.frames i v) i (record v { idx = i }) (rw length-set (omega arith)))
      rw set-set
      (remove_loop_stops n (i + 1)
        (record { frames = set cs.frames i (record v { idx = i }); sp = i }) (omega arith))

-- The parent that `Remove` gives to the frame above the removed one.
abbrev pub new_parent : ℕ → Option ℕ
new_parent sp = if ltb 1 sp then some (sp - 1) else none

link_next_in :
    (sp : ℕ) (cs : CallFrameStack)
    → sp + 1 < cs.sp
    → cs.sp ≤ length cs.frames
    → link_next sp cs
      ≡ ok (set cs.frames (sp + 1) (record (frame_at cs (sp + 1)) { parent = new_parent sp }))
unfolding link_next
link_next_in sp cs h k =
    let more : ltb (sp + 1) cs.sp ≡ true = ground arith in
    let same : ltb 0 (sp - 1) ≡ ltb 1 sp = ground arith in
    rw more rw same rw (read_in no_frame cs.frames (sp + 1) (omega arith))
      (write_in no_frame cs.frames (sp + 1) _ (omega arith))

remove_frame_run :
    (sp : ℕ) (cs : CallFrameStack) (a : List CallFrame) (b : CallFrameStack)
    → link_next sp cs ≡ ok a
    → remove_loop cs.sp sp (record { frames = a; sp = cs.sp }) ≡ ok b
    → remove_frame sp cs ≡ ok (record { frames = b.frames; sp = b.sp + 1 })
unfolding remove_frame
remove_frame_run sp cs a b e f = rw e rw f refl

-- Remove of a frame below the last one puts the next frame into its slot, with that slot's number
-- and the slot below as the parent, or nil for the slots 0 and 1, and makes it the last frame; the
-- frames below stay.
pub remove_frame_lem :
    (sp : ℕ) (cs : CallFrameStack)
    → IsNumbered cs
    → sp + 1 < cs.sp
    → (cs' : CallFrameStack) × (remove_frame sp cs ≡ ok cs')
      × IsNumbered cs'
      × (cs'.sp ≡ sp + 1)
      × (frame_at cs' sp ≡ record (frame_at cs (sp + 1)) { idx = sp; parent = new_parent sp })
      × ((j : ℕ) → j < sp → frame_at cs' j ≡ frame_at cs j)
remove_frame_lem sp cs w h =
    let size = w.capacity in
    let small = w.in_capacity in
    let v = record (frame_at cs (sp + 1)) { parent = new_parent sp } in
    let v' = record v { idx = sp } in
    let a = set cs.frames (sp + 1) v in
    let moved : get_or a (sp + 1) no_frame ≡ v =
      get_or-set_self cs.frames (sp + 1) v no_frame (omega arith) in
    let room : length a ≡ call_stack_size = length-set cs.frames (sp + 1) v ∙ w.capacity in
    let below : (j : ℕ) → j < sp → get_or (set a sp v') j no_frame ≡ frame_at cs j = λ j q.
      get_or-set_ne a sp j v' no_frame (omega arith)
      ∙ get_or-set_ne cs.frames (sp + 1) j v no_frame (omega arith) in
    let here : get_or (set a sp v') sp no_frame ≡ v' =
      get_or-set_self a sp v' no_frame (omega arith) in
    (
      record { frames = set a sp v'; sp = sp + 1 },
      remove_frame_run sp cs a (record { frames = set a sp v'; sp = sp })
          (link_next_in sp cs h (omega arith))
          (remove_loop_once cs.sp sp (record { frames = a; sp = cs.sp }) (omega arith) h
              (omega arith)
            ∙ ap (λ f. ok (record { frames = set a sp (record f { idx = sp }); sp = sp })) moved),
      record {
        capacity = length-set a sp v' ∙ room;
        in_capacity = omega arith;
        own_slot = λ j q. elim (Bool-cases (ltb j sp)) [
          | inl less ↦ ap (λ f. f.idx) (below j (ground arith)) ∙ w.own_slot j (ground arith)
          | inr more ↦ let at : j ≡ sp = ground arith in rw at (ap (λ f. f.idx) here)
        ];
      },
      refl,
      here,
      below,
    )
