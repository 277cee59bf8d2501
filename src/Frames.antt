-- ===== src/Frames.antt =====
-- state.go: the call frames of a thread (`callFrame`, `callFrameStack`). A pointer to a frame is the
-- number of its slot in the array, and none stands for nil.
mod Laws
mod Tests
use gopher_lua.Prelude.{
  ℕ, zero, suc, ◌+◌, ◌-◌, List, Option, none, some, length, get_elem?, replicate, set, ltb, leb,
  ◌==◌, if◌then◌else◌, ◌⊎◌, inl, inr, Bool,
}
use gopher_lua.Prelude.Int.{ℤ, pos}
use gopher_lua.Prelude.Result.{Result, ok, panic, out_of_range, ◌>>=◌}
use gopher_lua.Registry.{read, write}

-- `callFrame`; the function is the number of the object.
pub record CallFrame : Type 0 where
  pub idx : ℕ
  pub fn : Option ℕ
  pub parent : Option ℕ
  pub pc : ℤ
  pub base : ℤ
  pub local_base : ℤ
  pub return_base : ℤ
  pub n_args : ℤ
  pub n_ret : ℤ
  pub tail_call : ℤ

pub record CallFrameStack : Type 0 where
  pub frames : List CallFrame
  pub sp : ℕ

-- `CallStackSize`
abbrev pub call_stack_size : ℕ
call_stack_size = 1024

-- the zero value of a frame
abbrev pub no_frame : CallFrame
no_frame = record {
  idx = 0;
  fn = none;
  parent = none;
  pc = pos 0;
  base = pos 0;
  local_base = pos 0;
  return_base = pos 0;
  n_args = pos 0;
  n_ret = pos 0;
  tail_call = pos 0;
}

unfoldable pub new_call_frame_stack : ℕ → CallFrameStack
new_call_frame_stack size = record { frames = replicate size no_frame; sp = 0 }

unfoldable pub is_empty : CallFrameStack → Bool
is_empty cs = cs.sp == 0

-- The error that `Push` returns.
pub data PushError : Type 0 where
  stack_overflow : PushError

unfoldable pub push_frame : CallFrame → CallFrameStack → Result (PushError ⊎ CallFrameStack)
push_frame v cs = if cs.sp == call_stack_size then ok (inl stack_overflow) else (do
  a ← write cs.frames cs.sp v
  b ← write a cs.sp (record v { idx = cs.sp })
  ok (inr (record { frames = b; sp = cs.sp + 1 })))

-- `for i := sp; i+1 < cs.sp; i++` of `Remove`, whose body sets `cs.sp`, with `n` rounds left at
-- most; no more are made than there are frames.
unfoldable pub remove_loop : ℕ → ℕ → CallFrameStack → Result CallFrameStack
remove_loop zero i cs = ok cs
remove_loop (suc n) i cs =
    if ltb (i + 1) cs.sp
    then (do
      v ← read cs.frames (i + 1)
      a ← write cs.frames i v
      b ← write a i (record v { idx = i })
      remove_loop n (i + 1) (record { frames = b; sp = i }))
    else ok cs

-- `if next != nil { next.Parent = pre }`
unfoldable pub link_next : ℕ → CallFrameStack → Result (List CallFrame)
link_next sp cs =
    let pre = if ltb 0 (sp - 1) then some (sp - 1) else none in
    if ltb (sp + 1) cs.sp
    then (do
      next ← read cs.frames (sp + 1)
      write cs.frames (sp + 1) (record next { parent = pre }))
    else ok cs.frames

unfoldable pub remove_frame : ℕ → CallFrameStack → Result CallFrameStack
remove_frame sp cs = do
  a ← link_next sp cs
  cs' ← remove_loop cs.sp sp (record { frames = a; sp = cs.sp })
  ok (record { frames = cs'.frames; sp = cs'.sp + 1 })

unfoldable pub set_sp : ℕ → CallFrameStack → CallFrameStack
set_sp sp cs = record { frames = cs.frames; sp = sp }

-- The number of the slot, if there is a frame.
unfoldable pub last : CallFrameStack → Option ℕ
last cs = if cs.sp == 0 then none else some (cs.sp - 1)

-- The result is the slot of the frame that was the last one.
unfoldable pub pop_frame : CallFrameStack → Result (ℕ × CallFrameStack)
pop_frame cs = if cs.sp == 0 then panic out_of_range else (do
  v ← read cs.frames (cs.sp - 1)
  ok (cs.sp - 1, record { frames = cs.frames; sp = cs.sp - 1 }))
