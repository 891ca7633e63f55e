-- ===== src/Uapi/Presets.antt =====
-- pyuring/ring_presets.py.
use Prim.Native.Nat.{bit_or}
use pyuring.Prelude.{ℕ, Bool, ◌≡◌, refl, ℤ, pos}
use pyuring.Ctx.State.{
  CtxArgs, default_args, CreateCall, CreateReply, init, with_sqpoll, with_defer_taskrun,
  setup_sqpoll, setup_single_issuer, setup_defer_taskrun,
}

abbrev pub sqpoll_setup_flags : ℕ
sqpoll_setup_flags = setup_sqpoll

abbrev pub defer_taskrun_setup_flags : ℕ
defer_taskrun_setup_flags = bit_or setup_single_issuer setup_defer_taskrun

-- `UringCtx(..., **sqpoll_kwargs(...))`, for the arguments that the dictionary leaves.
abbrev pub sqpoll_kwargs : ℤ → ℤ → ℕ → CtxArgs → CtxArgs
sqpoll_kwargs sq_thread_idle sq_thread_cpu extra_setup_flags a = record a {
  setup_flags = pos (bit_or setup_sqpoll extra_setup_flags);
  sq_thread_idle = sq_thread_idle;
  sq_thread_cpu = sq_thread_cpu;
}

abbrev pub defer_taskrun_kwargs : ℕ → CtxArgs → CtxArgs
defer_taskrun_kwargs extra_setup_flags a = record a {
  setup_flags = pos (bit_or defer_taskrun_setup_flags extra_setup_flags);
}

-- The dictionaries without extra flags make the same ring as the two constructors of `UringCtx`, and
-- fail as they do.
presets_agree :
    (create : CreateCall → CreateReply) (tid entries : ℕ) (idle cpu : ℤ) (check : Bool)
    → let a : CtxArgs = record default_args { entries = entries; single_thread_check = check } in
      (init create tid (sqpoll_kwargs idle cpu 0 a) ≡ with_sqpoll create tid entries idle cpu check)
      × (init create tid (defer_taskrun_kwargs 0 a) ≡ with_defer_taskrun create tid entries check)
unfolding with_sqpoll with_defer_taskrun
presets_agree create tid entries idle cpu check = (refl, refl)
