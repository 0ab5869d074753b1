-- ===== src/Fetcher/System/Invariant.antt =====
-- What holds between the calls and the cache, and the frame rule for a step of one call.
use bb_action_router.Base.{
  Text, ℕ, ◌≡◌, sym, subst, ◌∙◌, ◌≢◌, ◌⊎◌, inl, inr, List, arith, ℕ_discrete,
}
use bb_action_router.Fetcher.Server.{Server}
use bb_action_router.Fetcher.Validity.{Cached, IsValid, IsFresh}
use bb_action_router.Fetcher.Leases.{Held}
use bb_action_router.Fetcher.System.{Phase, materialized, fetched, leased, System, set_phase}

-- The root that a call may hold a lease on.
abbrev pub Owner : Phase → ℕ → Type 0
Owner (fetched ref p) q = p ≡ q
Owner (leased ref p) q = p ≡ q
Owner _ q = ⊥

pub record Inv (s : System) : Type 0 where
  pub valid : IsValid s.server
  -- a leased root is cached, and under lease to its call
  pub held :
      (t : ℕ) (ref : Text) (p : ℕ)
      → s.phase t ≡ leased ref p
      → Cached s.server ref p × Held s.server t p
  -- no lease outlives its call
  pub owned : (t q : ℕ) → Held s.server t q → Owner (s.phase t) q
  -- the leader of a fetch holds a root that is still cached when it attaches its lease
  pub leading :
      (t : ℕ) (ref : Text) (p : ℕ)
      → s.phase t ≡ fetched ref p
      → Held s.server t p
      → Cached s.server ref p
  -- what has been materialized for a call is no other's
  pub fresh : (t : ℕ) (ref path : Text) → s.phase t ≡ materialized ref path → IsFresh s.server path
  pub lone :
      (t u : ℕ) (ref ref' path : Text)
      → s.phase t ≡ materialized ref path
      → s.phase u ≡ materialized ref' path
      → t ≡ u

-- Call `t` moves to phase `x` while the server becomes `u`.
pub record Moves (s : System) (t : ℕ) (x : Phase) (u : Server) : Type 0 where
  pub valid : IsValid u
  pub held :
      (a : ℕ) (k : Text) (q : ℕ)
      → a ≢ t
      → Cached s.server k q
      → Held s.server a q
      → Cached u k q × Held u a q
  pub owned : (a q : ℕ) → a ≢ t → Held u a q → Held s.server a q
  pub fresh : (a : ℕ) (ref path : Text) → a ≢ t → s.phase a ≡ materialized ref path → IsFresh u path
  pub my_lease : (ref : Text) (p : ℕ) → x ≡ leased ref p → Cached u ref p × Held u t p
  pub my_roots : (q : ℕ) → Held u t q → Owner x q
  pub my_fetch : (ref : Text) (p : ℕ) → x ≡ fetched ref p → Held u t p → Cached u ref p
  pub my_directory : (ref path : Text) → x ≡ materialized ref path → IsFresh u path
  pub my_name :
      (a : ℕ) (ref ref' path : Text)
      → x ≡ materialized ref path
      → s.phase a ≡ materialized ref' path
      → ⊥

module _ (s : System) (t : ℕ) (x : Phase) (u : Server) (inv : Inv s) (m : Moves s t x u) where
  moved_phase : (a : ℕ) → a ≢ t → set_phase s.phase t x a ≡ s.phase a
  moved_phase a n = ground arith

  moved_self : (a : ℕ) → a ≡ t → set_phase s.phase t x a ≡ x
  moved_self a e = ground arith

  -- A phase after the step, read back: the call is `t` and the phase is `x`, or it had it before.
  split_phase :
      (a : ℕ) {y : Phase}
      → set_phase s.phase t x a ≡ y
      → ((a ≡ t) × (x ≡ y)) ⊎ ((a ≢ t) × (s.phase a ≡ y))
  split_phase a e = elim (ℕ_discrete a t) [
    | yes self ↦ inl (self, sym (moved_self a self) ∙ e)
    | no other ↦ inr (other, sym (moved_phase a other) ∙ e)
  ]

  pub Moves-Inv :
      (n : ℕ) (f : List (Text × ℕ))
      → Inv (record { server = u; phase = set_phase s.phase t x; in_fetch = n; flights = f })
  Moves-Inv n f = record {
    valid = m.valid;
    held = λ a ref p e. elim (split_phase a e) [
      | inl (self, y) ↦ subst (λ b. Cached u ref p × Held u b p) (sym self) (m.my_lease ref p y)
      | inr (other, y) ↦ let old = inv.held a ref p y in m.held a ref p other old.0 old.1
    ];
    owned = λ a q h. elim (ℕ_discrete a t) [
      | yes self ↦
          subst (λ y. Owner y q) (sym (moved_self a self))
            (m.my_roots q (subst (λ b. Held u b q) self h))
      | no other ↦
          subst (λ y. Owner y q) (sym (moved_phase a other)) (inv.owned a q (m.owned a q other h))
    ];
    leading = λ a ref p e h. elim (split_phase a e) [
      | inl (self, y) ↦ m.my_fetch ref p y (subst (λ b. Held u b p) self h)
      | inr (other, y) ↦
          let before = m.owned a p other h in
          (m.held a ref p other (inv.leading a ref p y before) before).0
    ];
    fresh = λ a ref path e. elim (split_phase a e) [
      | inl (self, y) ↦ m.my_directory ref path y
      | inr (other, y) ↦ m.fresh a ref path other y
    ];
    lone = λ a b ref ref' path e g. elim (split_phase a e) [
      | inl (self, y) ↦ elim (split_phase b g) [
        | inl (self', y') ↦ self ∙ sym self'
        | inr (other, y') ↦ absurd (m.my_name b ref ref' path y y')
      ]
      | inr (other, y) ↦ elim (split_phase b g) [
        | inl (self', y') ↦ absurd (m.my_name a ref' ref path y' y)
        | inr (other', y') ↦ inv.lone a b ref ref' path y y'
      ]
    ];
  }
