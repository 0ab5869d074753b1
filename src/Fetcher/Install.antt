-- ===== src/Fetcher/Install.antt =====
-- The section of fetchRefSingle behind a successful Materialize: its four outcomes, and what each
-- of them keeps.
pub mod Keeping
use bb_action_router.Base.{
  Text, same, same_iff, lookup, IsMap, ℕ, ◌≤◌, ◌<◌, ◌≡◌, ◌≢◌, inl, inr, Bool, none, arith, leb,
  Bool-cases, Option-cases, length,
}
use bb_action_router.Fetcher.Eviction.{Entry, IsVictim, NoneIdle, pick_victim_lem}
use bb_action_router.Fetcher.Server.{
  Server, Result, ok, err, slots_in_use, discard, evict_victim, evict_one_idle, install_root,
  install_fetched,
}
use bb_action_router.Fetcher.Validity.{Cached}

module _ (renamed : Bool) (ref : Text) (token : ℕ) (path : Text) (now : ℕ) (s : Server) where
  pub data Installs (r : Server × Result ℕ) : Type 0 where
    -- the reference was cached in the meantime, under the same directory
    redundant : (p : ℕ) → Cached s ref p → (s.heap p).path ≡ path → r ≡ (s, ok p) → Installs r
    -- or under another one, and the new directory goes
    superseded :
        (p : ℕ)
        → Cached s ref p
        → (s.heap p).path ≢ path
        → r ≡ (discard renamed path s, ok p)
        → Installs r
    -- a slot was free
    installed :
        lookup ref s.roots ≡ none
        → length s.roots < s.max_roots
        → r ≡ (install_root ref token path now s, ok s.next_root)
        → Installs r
    -- the victim made room
    replaced :
        (v : Entry)
        → lookup ref s.roots ≡ none
        → s.max_roots ≤ length s.roots
        → IsVictim s s.roots v
        → (let t = evict_victim renamed now s v.0 v.1 in
            r ≡ (install_root ref token path now t, ok t.next_root))
        → Installs r
    -- every root is leased or pinned
    refused :
        lookup ref s.roots ≡ none
        → s.max_roots ≤ length s.roots
        → NoneIdle s s.roots
        → r ≡ (discard renamed path s, err slots_in_use)
        → Installs r

  pub install_fetched-Installs :
      IsMap s.roots → Installs (install_fetched renamed ref token path now s)
  install_fetched-Installs m = elim (Option-cases (lookup ref s.roots)) [
    | inr (p, hit) ↦ elim (Bool-cases (same (s.heap p).path path)) [
      | inl e ↦
          redundant p hit ((same_iff _ _).0 e)
            (unfold install_fetched evict_one_idle in rw (hit, install_fetched, e))
      | inr e ↦
          superseded p hit (λ q. cc (e, (same_iff _ _).1 q))
            (unfold install_fetched evict_one_idle in rw (hit, install_fetched, e))
    ]
    | inl miss ↦ elim (Bool-cases (leb s.max_roots (length s.roots))) [
      | inr room ↦
          installed miss (ground arith)
            (unfold install_fetched evict_one_idle in rw (miss, install_fetched, room))
      | inl full ↦ elim (pick_victim_lem s s.roots m) [
        | inl (e, none_idle) ↦ refused miss (ground arith) none_idle (
            unfold install_fetched evict_one_idle in
            rw (miss, install_fetched, full, e, evict_one_idle))
        | inr (v, e, victim) ↦ replaced v miss (ground arith) victim (
            unfold install_fetched evict_one_idle in
            rw (miss, install_fetched, full, e, evict_one_idle))
      ]
    ]
  ]
