-- ===== src/Fetcher/Eviction.antt =====
-- evictOneIdleLocked: which root goes.
use bb_action_router.Base.{
  ℕ, ◌≡◌, refl, sym, ◌∙◌, ap, ◌⊎◌, inl, inr, true, false, none, some, List, [], ◌∷◌, Text, same_iff,
  text_lt_asym, text_lt_irrefl, text_lt_total, text_lt_neg_trans, lookup, All, All-lookup,
  IsMap-All, ◌&&◌, IsMap, Bool-cases, arith,
}
use bb_action_router.Fetcher.Server.{Server, evictable, is_better, pick_victim}

abbrev pub Entry : Type 0
Entry = Text × ℕ

is_better_asym :
    (s : Server) (e f : Entry)
    → is_better s e.0 e.1 (some f) ≡ true
    → is_better s f.0 f.1 (some e) ≡ false
unfolding is_better
is_better_asym s e f h = ground (arith, text_lt_asym e.0 f.0)

is_better_irrefl : (s : Server) (e : Entry) → is_better s e.0 e.1 (some e) ≡ false
unfolding is_better
is_better_irrefl s e = ground (arith, text_lt_irrefl e.0)

is_better_neg_trans :
    (s : Server) (e f g : Entry)
    → is_better s e.0 e.1 (some f) ≡ false
    → is_better s f.0 f.1 (some g) ≡ false
    → is_better s e.0 e.1 (some g) ≡ false
unfolding is_better
is_better_neg_trans s e f g h k = ground (arith, text_lt_neg_trans e.0 f.0 g.0)

module _ (s : Server) (Q : Entry → Type 0) where
  -- An evictable entry with `Q` that none of the entries beats.
  abbrev Picked : List Entry → Entry → Type 0
  Picked entries v =
      Q v
      × (evictable s v.0 v.1 ≡ true)
      × All (λ e. evictable s e.0 e.1 ≡ true → is_better s e.0 e.1 (some v) ≡ false) entries

  pick-Picked :
      (entries : List Entry) (b : Entry)
      → All Q entries
      → Q b
      → evictable s b.0 b.1 ≡ true
      → (v : Entry) × (pick_victim s entries (some b) ≡ some v)
        × (is_better s b.0 b.1 (some v) ≡ false)
        × Picked entries v
  unfolding pick_victim
  pick-Picked [] b all q idle = (b, refl, is_better_irrefl s b, (q, idle, tt))
  pick-Picked (e ∷ entries) b all q idle =
      elim (Bool-cases (evictable s e.0 e.1 && is_better s e.0 e.1 (some b))) [
        | inl takes ↦
            let (v, eq, best, won) = pick-Picked entries e all.1 all.0 (ground arith) in
            (
              v,
              rw takes eq,
              is_better_neg_trans s b e v (is_better_asym s e b (ground arith)) best,
              (won.0, won.1, ((λ _. best), won.2)),
            )
        | inr stays ↦
            let (v, eq, best, won) = pick-Picked entries b all.1 q idle in
            (
              v,
              rw stays eq,
              best,
              (won.0, won.1, ((λ i. is_better_neg_trans s e b v (ground arith) best), won.2)),
            )
      ]

  pick-cases :
      (entries : List Entry)
      → All Q entries
      → ((pick_victim s entries none ≡ none) × All (λ e. evictable s e.0 e.1 ≡ false) entries)
        ⊎ ((v : Entry) × (pick_victim s entries none ≡ some v) × Picked entries v)
  unfolding pick_victim is_better
  pick-cases [] all = inl (refl, tt)
  pick-cases (e ∷ entries) all = elim (Bool-cases (evictable s e.0 e.1)) [
    | inl idle ↦
        let (v, eq, best, won) = pick-Picked entries e all.1 all.0 idle in
        inr (v, rw idle eq, (won.0, won.1, ((λ _. best), won.2)))
    | inr busy ↦ elim (pick-cases entries all.1) [
      | inl (eq, none_idle) ↦ inl (rw busy eq, (busy, none_idle))
      | inr (v, eq, won) ↦ inr (v, rw busy eq, (won.0, won.1, ((λ i. cc (i, busy)), won.2)))
    ]
  ]

-- The victim of a map of roots: an entry that is neither leased nor pinned, and that no other such
-- entry beats on the pair of its virtual time and its image reference.
pub record IsVictim (s : Server) (entries : List Entry) (v : Entry) : Type 0 where
  pub entry : lookup v.0 entries ≡ some v.1
  pub idle : evictable s v.0 v.1 ≡ true
  pub least :
      (k : Text) (q : ℕ)
      → lookup k entries ≡ some q
      → evictable s k q ≡ true
      → is_better s k q (some v) ≡ false

abbrev pub NoneIdle : Server → List Entry → Type 0
NoneIdle s entries = (k : Text) (q : ℕ) → lookup k entries ≡ some q → evictable s k q ≡ false

-- The loop finds the victim of the map if some root is neither leased nor pinned, and finds nothing
-- only if every root is leased or pinned.
pub pick_victim_lem :
    (s : Server) (entries : List Entry)
    → IsMap entries
    → ((pick_victim s entries none ≡ none) × NoneIdle s entries)
      ⊎ ((v : Entry) × (pick_victim s entries none ≡ some v) × IsVictim s entries v)
pick_victim_lem s entries m =
    elim (pick-cases s (λ e. lookup e.0 entries ≡ some e.1) entries (IsMap-All entries m)) [
      | inl (eq, all) ↦
          inl (eq, λ k q. All-lookup (λ e. evictable s e.0 e.1 ≡ false) k q entries all)
      | inr (v, eq, won) ↦ inr (
        v,
        eq,
        record {
          entry = won.0;
          idle = won.1;
          least = λ k q.
              All-lookup (λ e. evictable s e.0 e.1 ≡ true → is_better s e.0 e.1 (some v) ≡ false) k
                q entries won.2;
        },
      )
    ]

tied_same :
    (s : Server) (v w : Entry)
    → is_better s v.0 v.1 (some w) ≡ false
    → is_better s w.0 w.1 (some v) ≡ false
    → v.0 ≡ w.0
unfolding is_better
tied_same s v w h k = ground (arith, text_lt_total v.0 w.0, same_iff v.0 w.0)

IsVictim-unique :
    (s : Server) (entries : List Entry) (v w : Entry)
    → IsVictim s entries v
    → IsVictim s entries w
    → some v ≡ some w
IsVictim-unique s entries v w hv hw =
    let e =
      tied_same s v w (hw.least v.0 v.1 hv.entry hv.idle) (hv.least w.0 w.1 hw.entry hw.idle) in
    ground (arith, e, hv.entry, hw.entry, ap (λ k. lookup k entries) e)

IsVictim-map :
    (s : Server) (m n : List Entry) (v : Entry)
    → ((k : Text) → lookup k m ≡ lookup k n)
    → IsVictim s m v
    → IsVictim s n v
IsVictim-map s m n v same_map h = record {
  entry = sym (same_map v.0) ∙ h.entry;
  idle = h.idle;
  least = λ k q e. h.least k q (same_map k ∙ e);
}

-- Go visits the entries of a map in no fixed order. Two lists of entries of one map, in any two
-- orders, give the same victim, or none both times.
pub pick_victim_any_order :
    (s : Server) (m n : List Entry)
    → IsMap m
    → IsMap n
    → ((k : Text) → lookup k m ≡ lookup k n)
    → pick_victim s m none ≡ pick_victim s n none
pick_victim_any_order s m n hm hn same_map = elim (pick_victim_lem s m hm) [
  | inl (em, idle_m) ↦ elim (pick_victim_lem s n hn) [
    | inl (en, idle_n) ↦ em ∙ sym en
    | inr (w, en, hw) ↦ cc (hw.idle, idle_m w.0 w.1 (same_map w.0 ∙ hw.entry))
  ]
  | inr (v, em, hv) ↦ elim (pick_victim_lem s n hn) [
    | inl (en, idle_n) ↦ cc (hv.idle, idle_n v.0 v.1 (sym (same_map v.0) ∙ hv.entry))
    | inr (w, en, hw) ↦ em ∙ IsVictim-unique s n v w (IsVictim-map s m n v same_map hv) hw ∙ sym en
  ]
]
