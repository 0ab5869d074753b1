-- ===== src/Fetcher/Validity/Installing.antt =====
-- Installing a root keeps the invariant of the cache.
use bb_action_router.Base.{
  Text, same_iff, lookup, lookup-put, length-put_new, put-IsMap, ℕ, ◌<◌, ◌≡◌, ◌≢◌, ◌⊎◌, inl, inr,
  none, arith, length,
}
use bb_action_router.Fetcher.Server.{Server, install_root}
use bb_action_router.Fetcher.Validity.{Cached, IsValid, IsFresh}

module _ (ref : Text) (token now : ℕ) (path : Text) (s : Server) where
  installed_entry :
      (k : Text) (q : ℕ)
      → Cached (install_root ref token path now s) k q
      → ((k ≡ ref) × (q ≡ s.next_root)) ⊎ (Cached s k q × (ref ≢ k))
  unfolding install_root
  installed_entry k q e = ground (arith, lookup-put ref k s.next_root s.roots, same_iff ref k)

  installed_path : ((install_root ref token path now s).heap s.next_root).path ≡ path
  unfolding install_root
  installed_path = ground arith

  other_path :
      (q : ℕ)
      → q ≢ s.next_root
      → ((install_root ref token path now s).heap q).path ≡ (s.heap q).path
  unfolding install_root
  other_path q h = ground arith

  installed_path_cases :
      IsValid s
      → (k : Text) (q : ℕ) → Cached (install_root ref token path now s) k q
      → (((install_root ref token path now s).heap q).path ≡ path)
        ⊎ (Cached s k q × (((install_root ref token path now s).heap q).path ≡ (s.heap q).path))
  installed_path_cases v k q e =
      ground (arith, installed_entry k q e, installed_path, other_path q, v.allocated k q)

  pub install_root-IsValid :
      IsValid s
      → length s.roots < s.max_roots
      → lookup ref s.roots ≡ none
      → IsFresh s path
      → IsValid (install_root ref token path now s)
  install_root-IsValid v room absent fresh = record {
    map = unfold install_root in put-IsMap ref s.next_root s.roots v.map;
    bounded = unfold install_root in omega (arith, length-put_new ref s.next_root s.roots absent);
    gauge =
        unfold install_root in
        omega (arith, v.gauge, length-put_new ref s.next_root s.roots absent);
    falling = unfold install_root in v.falling;
    allocated =
        λ k q e. unfold install_root in ground (arith, installed_entry k q e, v.allocated k q);
    unshared = λ j k q e f. ground (
      arith,
      installed_entry j q e,
      installed_entry k q f,
      v.allocated j q,
      v.allocated k q,
      v.unshared j k q,
    );
    present = λ k q e.
        unfold install_root in
        elim (installed_path_cases v k q e) [
          | inl eq ↦ rw eq fresh.on_disk
          | inr (c, eq) ↦ rw eq (v.present k q c)
        ];
    safe = λ k q e.
        unfold install_root in
        elim (installed_path_cases v k q e) [
          | inl eq ↦ rw eq fresh.kept
          | inr (c, eq) ↦ rw eq (v.safe k q c)
        ];
    pending = unfold install_root in v.pending;
    apart = λ j k p q e f same_path. ground (
      arith,
      installed_entry j p e,
      installed_entry k q f,
      installed_path,
      other_path p,
      other_path q,
      v.allocated j p,
      v.allocated k q,
      v.apart j k p q,
      fresh.unused j p,
      fresh.unused k q,
    );
  }
