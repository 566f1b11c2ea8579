-- ===== src/Server/Account.antt =====
-- A child's requests to change its name or state, as the server carries them out.
use netcosm.Base.{ℕ, ◌<◌, ◌^◌, ◌≡◌, refl, ap, some, List, [], ◌∷◌, ◌++◌, length, arith}
use netcosm.Base.Run.{ok, Returns}
use netcosm.Client.Moves.{client_change_user, client_change_state, with_nul}
use netcosm.Server.Handlers.{req_change_user, req_change_state, c_string}
use netcosm.Server.{Child, Server, find_child, change_child}
use netcosm.Stream.Laws.{le_value-le_bytes}
use netcosm.Text.{Bytes, IsCString}

c_string-with_nul : (s stale : Bytes) → IsCString s → c_string (with_nul s ++ stale) ≡ s
unfolding c_string
c_string-with_nul [] stale h = refl
c_string-with_nul (c ∷ s) stale (on, h) = rw on (ap (λ t. c ∷ t) (c_string-with_nul s stale h))

find_child-change_child :
    (pid : ℕ) (f : Child → Child) (c : Child) (cs : List Child)
    → ((x : Child) → (f x).pid ≡ x.pid)
    → find_child pid cs ≡ some c
    → find_child pid (change_child pid f cs) ≡ some (f c)
unfolding find_child change_child
find_child-change_child pid f c [] keeps h = cc h
find_child-change_child pid f c (x ∷ cs) keeps h =
    ground (arith, h, keeps x, find_child-change_child pid f c cs keeps)

-- The request of client_change_user, whatever stands behind it in the buffer, gives a known child
-- exactly that name, where the name holds no NUL.
pub req_change_user-client_change_user :
    (name stale : Bytes) (pid : ℕ) (c : Child) (sv : Server)
    → IsCString name
    → find_child pid sv.children ≡ some c
    → Returns
        (req_change_user
          ((client_change_user name).1 ++ stale)
          (length (client_change_user name).1)
          pid
          pid
          sv)
        (λ sv'. find_child pid sv'.children ≡ some (record c { user = some name }))
unfolding req_change_user client_change_user
req_change_user-client_change_user name stale pid c sv h known = (
  _,
  refl,
  rw (c_string-with_nul name stale h) (
      find_child-change_child pid (λ c. record c { user = some name }) c sv.children (λ x. refl)
        known),
)

-- The request of client_change_state gives a known child exactly that state, for a state that an
-- `int` holds.
pub req_change_state-client_change_state :
    (state : ℕ) (stale : Bytes) (pid : ℕ) (c : Child) (sv : Server)
    → state < 2 ^ 32
    → find_child pid sv.children ≡ some c
    → Returns
        (req_change_state
          ((client_change_state state).1 ++ stale)
          (length (client_change_state state).1)
          pid
          pid
          sv)
        (λ sv'. find_child pid sv'.children ≡ some (record c { state = state }))
unfolding req_change_state client_change_state
req_change_state-client_change_state state stale pid c sv h known =
    let after : ℕ → Server =
      λ v. record sv { children = change_child pid (λ c. record c { state = v }) sv.children } in
    (
      after state,
      ap (λ v. ok (after v)) (le_value-le_bytes 4 state h),
      find_child-change_child pid (λ c. record c { state = state }) c sv.children (λ x. refl) known,
    )
