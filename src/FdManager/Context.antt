-- ===== src/FdManager/Context.antt =====
-- `FdCtx` (sylar/fd_manager.cpp): its set-up and its timeouts.
use sylar_demo.Common.{
  ℕ, ◌-◌, ◌^◌, ◌≡◌, refl, ◌⊎◌, inl, inr, Bool, true, false, Option, none, some, ◌==◌, if◌then◌else◌,
  bit_and, bit_or,
}
use sylar_demo.FdManager.{o_nonblock, init, init_stat, init_socket, new_ctx}

-- A new `FdCtx`: it is initialised just if the descriptor is open; a socket, and nothing else, is
-- made non-blocking, by one F_SETFL if it was not so; the user's own flag is off, and there are no
-- timeouts. To initialise it again does nothing if the descriptor was open.
pub new_ctx_lem :
    (fd : ℕ) (stat stat' : Option Bool) (flags flags' : ℕ)
    → (let made = new_ctx fd stat flags in
        (made.0 ≡ (
          if made.2.is_socket
          then (if bit_and flags o_nonblock == 0 then some (bit_or flags o_nonblock) else none)
          else none))
        × (made.1 ≡ made.2.is_init)
        × (made.2.sys_nonblock ≡ made.2.is_socket)
        × (made.2.user_nonblock ≡ false)
        × (made.2.recv_timeout ≡ 2 ^ 64 - 1)
        × (made.2.send_timeout ≡ 2 ^ 64 - 1)
        × (((stat ≡ none) × (made.1 ≡ false) × (made.2.is_socket ≡ false))
            ⊎ ((socket : Bool) × (stat ≡ some socket)
                × (made.2.is_socket ≡ socket)
                × (init stat' flags' made.2 ≡ (none, true, made.2)))))
unfolding new_ctx init init_stat init_socket
new_ctx_lem fd none stat' flags flags' =
    (refl, refl, refl, refl, refl, refl, inl (refl, refl, refl))
new_ctx_lem fd (some true) stat' flags flags' =
    (refl, refl, refl, refl, refl, refl, inr (true, refl, refl, refl))
new_ctx_lem fd (some false) stat' flags flags' =
    (refl, refl, refl, refl, refl, refl, inr (false, refl, refl, refl))
