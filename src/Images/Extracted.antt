-- ===== src/Images/Extracted.antt =====
-- The trees that the archives of layers make of an extractor behind the injecting visitor.
use bb_action_router.Base.{Text, inl, inr, Option, none, some, List, [], ◌∷◌}
use bb_action_router.Status.{Error, Result, ok, err, Result-cases}
use bb_action_router.Router.Config.{UnixUser}
use bb_action_router.Layers.Tree.{Dir}
use bb_action_router.Layers.Events.{
  Uploader, Event, directory_seen, file_seen, link_seen, symlink_seen,
}
use bb_action_router.Layers.Keeping.{Keeps}
use bb_action_router.Users.Entries.{inject, on_injected}
use bb_action_router.Registry.Archive.{
  Next, header, failed, event_of, visit_if, process_tar, extract_and_visit,
}

-- What every event keeps, an archive keeps.
module _ {S : Type 0} (visit : Event → S → Result (Unit {0}) × S)
    (complete : S → Result (Unit {0}) × S) (K : S → Type 0)
    (visit-K : (x : Event) (s : S) → K s → K (visit x s).1)
    (complete-K : (s : S) → K s → K (complete s).1) where
  visit_if-K : (o : Option Event) (s : S) → K s → K (visit_if visit complete o s).1
  visit_if-K none s k = k
  visit_if-K (some x) s k = visit-K x s k

  process_tar-K : (archive : List Next) (s : S) → K s → K (process_tar visit complete archive s).1
  unfolding process_tar
  process_tar-K [] s k = k
  process_tar-K (failed e ∷ archive) s k = k
  process_tar-K (header (some e) h ∷ archive) s k = k
  process_tar-K (header none h ∷ archive) s k =
      let r = visit_if visit complete (event_of h.type_flag h) s in
      let kept = visit_if-K (event_of h.type_flag h) s k in
      elim (Result-cases r.0) [
        | inr (e, f) ↦ rw (f, process_tar) kept
        | inl (done, f) ↦ rw (f, process_tar) (process_tar-K archive r.1 kept)
      ]

  pub extract_and_visit-K :
      (layer : Result (List Next)) (s : S) → K s → K (extract_and_visit visit complete layer s).1
  unfolding extract_and_visit
  extract_and_visit-K (err e) s k = k
  extract_and_visit-K (ok archive) s k =
      let r = process_tar visit complete archive s in
      let kept = process_tar-K archive s k in
      elim (Result-cases r.0) [
        | inr (e, f) ↦ rw (f, extract_and_visit) kept
        | inl (done, f) ↦ rw (f, extract_and_visit) (complete-K r.1 kept)
      ]

-- An extractor behind the visitor that injects the build user keeps no other trees.
pub on_injected-Keeps :
    (user : UnixUser) (failure : Text → Option Error) (u : Uploader) (x : Event) (root : Dir)
    → Keeps u root
    → Keeps u (on_injected user failure u x root).1
unfolding on_injected
on_injected-Keeps user failure u (directory_seen path) root k =
    Keeps.event root (directory_seen path) k
on_injected-Keeps user failure u (link_seen path target) root k =
    Keeps.event root (link_seen path target) k
on_injected-Keeps user failure u (symlink_seen path target) root k =
    Keeps.event root (symlink_seen path target) k
on_injected-Keeps user failure u (file_seen path data_ mode) root k =
    elim (Result-cases (inject user failure path data_)) [
      | inr (e, f) ↦ rw (f, on_injected) k
      | inl (content, f) ↦ rw (f, on_injected) (Keeps.event root (file_seen path content mode) k)
    ]
