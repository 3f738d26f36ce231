-- ===== src/Consensus/SchemeLifecycle/Progress.antt =====
-- What the registry promises: lookups after a registration, and states that only go forward.
use amarian_amr.Base.{
  ℕ, ◌≤◌, ◌<◌, ◌≡◌, ◌↔◌, refl, ap, ◌∙◌, true, false, some, [], ◌∷◌, arith, if◌then◌else◌, ◌==◌,
  nat_eq, nat_beq_iff, Bool-cases, inl, inr,
}
use amarian_amr.Consensus.SchemeLifecycle.{
  SchemeState, pending, active, deprecated, retired, SchemeLifecycle, Registry, state_of,
  find_state, get_state, is_active, may_create_output, is_spendable, register, find_lifecycle,
  get_lifecycle,
}

abbrev pub stage : SchemeState → ℕ
stage pending = 0
stage active = 1
stage deprecated = 2
stage retired = 3

state_of-forward :
    (e : SchemeLifecycle) (h k : ℕ) → h ≤ k → stage (state_of e h) ≤ stage (state_of e k)
unfolding state_of
state_of-forward e h k l = ground arith

find_state-forward :
    (r : Registry) (id h k : ℕ) → h ≤ k → stage (find_state r id h) ≤ stage (find_state r id k)
unfolding find_state
find_state-forward [] id h k l = omega arith
find_state-forward (e ∷ es) id h k l =
    ground (arith, state_of-forward e h k l, find_state-forward es id h k l)

-- As the height grows, the state of a scheme only goes forward, from pending to active, deprecated and
-- retired, whatever the order of the three heights in its entry; and whether its coins can be spent
-- does not depend on the height.
pub get_state_forward :
    (r : Registry) (id h k : ℕ)
    → h ≤ k
    → (stage (get_state r id h) ≤ stage (get_state r id k))
      × (is_spendable r id h ≡ is_spendable r id k)
unfolding get_state is_spendable
get_state_forward r id h k l = (ground (arith, find_state-forward r id h k l), refl)

find_lifecycle-register :
    (l : SchemeLifecycle) (r : Registry) (id : ℕ)
    → find_lifecycle (register l r) id ≡ (if l.scheme_id == id then some l else find_lifecycle r id)
unfolding find_lifecycle register
find_lifecycle-register l [] id = refl
find_lifecycle-register l (e ∷ es) id = elim (Bool-cases (e.scheme_id == l.scheme_id)) [
  | inl q ↦
      let same : e.scheme_id ≡ l.scheme_id = (nat_beq_iff e.scheme_id l.scheme_id).0 q in
      rw (q, same) (ground arith)
  | inr q ↦ rw q (ground (arith, find_lifecycle-register l es id))
]

find_state-find_lifecycle :
    (r : Registry) (id h : ℕ) (e : SchemeLifecycle)
    → find_lifecycle r id ≡ some e
    → find_state r id h ≡ state_of e h
unfolding find_lifecycle find_state
find_state-find_lifecycle [] id h e q = absurd (cc (q))
find_state-find_lifecycle (x ∷ xs) id h e q = elim (Bool-cases (x.scheme_id == id)) [
  | inl t ↦ let same : x ≡ e = cc (rw t at q) in rw t (ap (λ z. state_of z h) same)
  | inr t ↦ rw t (find_state-find_lifecycle xs id h e (rw t at q))
]

active_between :
    (e : SchemeLifecycle) (h : ℕ)
    → (is_active (state_of e h) ≡ true)
      ↔ ((e.activation_height ≤ h) × (h < e.deprecation_height) × (h < e.retirement_height))
unfolding state_of
active_between e h = (λ q. ground arith, λ q. ground arith)

get_lifecycle-register :
    (l : SchemeLifecycle) (r : Registry) (id : ℕ)
    → (l.scheme_id == 0) ≡ false
    → get_lifecycle (register l r) id ≡ (if l.scheme_id == id then some l else get_lifecycle r id)
unfolding get_lifecycle
get_lifecycle-register l r id n = ground (arith, find_lifecycle-register l r id)

-- After the registration of a lifecycle under an identifier that is not 0, `get_lifecycle` finds it
-- there and finds under every other identifier what it found before, and at a height below 0xffff_ffff an
-- output may be created under the scheme exactly from its activation on, before its deprecation and before
-- its retirement, of which 0xffff_ffff is after every such height.
pub register-get_lifecycle :
    (l : SchemeLifecycle) (r : Registry) (id h : ℕ)
    → (l.scheme_id == 0) ≡ false
    → h < 0xffff_ffff
    → (get_lifecycle (register l r) id ≡ (if l.scheme_id == id then some l else get_lifecycle r id))
      × ((may_create_output (register l r) l.scheme_id h ≡ true)
          ↔ ((l.activation_height ≤ h) × (h < l.deprecation_height) × (h < l.retirement_height)))
unfolding may_create_output get_state
register-get_lifecycle l r id h n low =
    let found : find_lifecycle (register l r) l.scheme_id ≡ some l =
      find_lifecycle-register l r l.scheme_id ∙ ground arith in
    (
      get_lifecycle-register l r id n,
      rw (n, find_state-find_lifecycle (register l r) l.scheme_id h l found) (active_between l h),
    )
