-- ===== src/Fetcher/Install/Keeping/Outcomes.antt =====
-- The invariant of the cache on each outcome of the section of fetchRefSingle.
use bb_action_router.Base.{Text, same_refl, lookup-put, ℕ, ◌≡◌, refl, ◌≢◌, Bool, true, false, arith}
use bb_action_router.Fetcher.Server.{Server, Result, ok, discard, evict_victim, install_root}
use bb_action_router.Fetcher.Validity.{Cached, IsValid, IsFresh}
use bb_action_router.Fetcher.Validity.Discarding.{discard-IsValid, evict_victim-IsValid}
use bb_action_router.Fetcher.Validity.Installing.{install_root-IsValid}
use bb_action_router.Fetcher.Install.{Installs, redundant, superseded, installed, replaced, refused}
use bb_action_router.Fetcher.Install.Keeping.{
  Keeps, Keeps-refl, discard-Keeps, evict_victim-Keeps, install_root-Keeps, evict_victim-next_root,
  evict_victim-absent, evict_victim-room, Keeps-trans, discard-IsFresh, evict_victim-IsFresh,
  install_root-IsFresh,
}

module _ (renamed : Bool) (ref : Text) (token : ℕ) (path : Text) (now : ℕ) (s : Server) where
  pub Installs-Keeps :
      (r : Server × Result ℕ) → IsValid s → Installs renamed ref token path now s r → Keeps s r.0
  Installs-Keeps r valid (redundant p c e eq) = rw eq (Keeps-refl s)
  Installs-Keeps r valid (superseded p c e eq) = rw eq (discard-Keeps renamed path s)
  Installs-Keeps r valid (installed absent room eq) =
      rw eq (install_root-Keeps ref token now path s absent)
  Installs-Keeps r valid (replaced v absent full victim eq) = rw eq (
      Keeps-trans s _ _ valid (evict_victim-next_root renamed now s v)
        (evict_victim-Keeps renamed now s v victim)
        (install_root-Keeps ref token now path _ (evict_victim-absent renamed now s v ref absent)))
  Installs-Keeps r valid (refused absent full idle eq) = rw eq (discard-Keeps renamed path s)

  pub Installs-IsValid :
      (r : Server × Result ℕ)
      → IsValid s
      → IsFresh s path
      → Installs renamed ref token path now s r
      → IsValid r.0
  Installs-IsValid r valid f (redundant p c e eq) = rw eq valid
  Installs-IsValid r valid f (superseded p c e eq) = rw eq (discard-IsValid renamed path s f valid)
  Installs-IsValid r valid f (installed absent room eq) =
      rw eq (install_root-IsValid ref token now path s valid room absent f)
  Installs-IsValid r valid f (replaced v absent full victim eq) = rw eq (
      install_root-IsValid ref token now path _
        (evict_victim-IsValid v.0 v.1 _ s victim.entry valid renamed now refl)
        (evict_victim-room renamed now s v victim valid)
        (evict_victim-absent renamed now s v ref absent)
        (evict_victim-IsFresh renamed now s v path victim f))
  Installs-IsValid r valid f (refused absent full idle eq) =
      rw eq (discard-IsValid renamed path s f valid)

  pub Installs-IsFresh :
      (other : Text) (r : Server × Result ℕ)
      → path ≢ other
      → IsValid s
      → IsFresh s other
      → Installs renamed ref token path now s r
      → IsFresh r.0 other
  Installs-IsFresh other r differs valid f (redundant p c e eq) = rw eq f
  Installs-IsFresh other r differs valid f (superseded p c e eq) =
      rw eq (discard-IsFresh renamed path other s differs f)
  Installs-IsFresh other r differs valid f (installed absent room eq) =
      rw eq (install_root-IsFresh ref token now path other s differs valid f)
  Installs-IsFresh other r differs valid f (replaced v absent full victim eq) = rw eq (
      install_root-IsFresh ref token now path other _ differs
        (evict_victim-IsValid v.0 v.1 _ s victim.entry valid renamed now refl)
        (evict_victim-IsFresh renamed now s v other victim f))
  Installs-IsFresh other r differs valid f (refused absent full idle eq) =
      rw eq (discard-IsFresh renamed path other s differs f)

install_root-Cached :
    (ref : Text) (token now : ℕ) (path : Text) (s : Server)
    → Cached (install_root ref token path now s) ref s.next_root
unfolding install_root
install_root-Cached ref token now path s =
    ground (arith, lookup-put ref ref s.next_root s.roots, same_refl ref)

discard-roots :
    (renamed : Bool) (path : Text) (s : Server) → (discard renamed path s).roots ≡ s.roots
unfolding discard
discard-roots true path s = refl
discard-roots false path s = refl

-- The root that the section returns is the one that is cached for the image.
pub Installs-Cached :
    (renamed : Bool) (ref : Text) (token : ℕ) (path : Text) (now : ℕ) (s : Server)
    (r : Server × Result ℕ) (q : ℕ)
    → Installs renamed ref token path now s r
    → r.1 ≡ ok q
    → Cached r.0 ref q
Installs-Cached renamed ref token path now s r q (redundant p c e eq) o = ground arith
Installs-Cached renamed ref token path now s r q (superseded p c e eq) o =
    ground (arith, discard-roots renamed path s)
Installs-Cached renamed ref token path now s r q (installed absent room eq) o =
    ground (arith, install_root-Cached ref token now path s)
Installs-Cached renamed ref token path now s r q (replaced v absent full victim eq) o =
    ground (arith, install_root-Cached ref token now path (evict_victim renamed now s v.0 v.1))
Installs-Cached renamed ref token path now s r q (refused absent full idle eq) o = ground arith
