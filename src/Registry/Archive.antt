-- ===== src/Registry/Archive.antt =====
-- pkg/docker/layer_extractor.go, for a visitor that changes a state. The archive reader is a
-- parameter: a list of what its calls return, up to the end of the archive.
use bb_action_router.Base.{Text, ℕ, Option, none, some, List, [], ◌∷◌}
use bb_action_router.Status.{Error, Result, ok, err, wrap}
use bb_action_router.Layers.Events.{Event, directory_seen, file_seen, link_seen, symlink_seen}

pub data TypeFlag : Type 0 where
  type_dir type_reg type_symlink type_link : TypeFlag
  other_type : ℕ → TypeFlag

pub record Header : Type 0 where
  pub type_flag : TypeFlag
  pub name : Text
  pub link_name : Text
  pub mode : ℕ
  -- The data that the reader holds behind the header.
  pub content : Text

-- A header, and whether the context was done when it was read; or an error of the reader.
pub data Next : Type 0 where
  header : Option Error → Header → Next
  failed : Error → Next

abbrev pub event_of : TypeFlag → Header → Option Event
event_of type_dir h = some (directory_seen h.name)
event_of type_reg h = some (file_seen h.name h.content h.mode)
event_of type_symlink h = some (symlink_seen h.name h.link_name)
event_of type_link h = some (link_seen h.name h.link_name)
event_of (other_type n) h = none

module _ {S : Type 0} (visit : Event → S → Result (Unit {0}) × S)
    (complete : S → Result (Unit {0}) × S) where
  abbrev pub visit_if : Option Event → S → Result (Unit {0}) × S
  visit_if none s = (ok tt, s)
  visit_if (some event) s = visit event s

  unfoldable pub process_tar : List Next → S → Result (Unit {0}) × S
  process_tar [] s = (ok tt, s)
  process_tar (failed e ∷ archive) s = (err (wrap "Failed to read tar header" e), s)
  process_tar (header (some e) h ∷ archive) s = (err e, s)
  process_tar (header none h ∷ archive) s =
      let r = visit_if (event_of h.type_flag h) s in
      elim r.0 [ err e ↦ (err e, r.1) | ok u ↦ process_tar archive r.1 ]

  unfoldable pub extract_and_visit : Result (List Next) → S → Result (Unit {0}) × S
  extract_and_visit (err e) s = (err (wrap "Failed to uncompress layer" e), s)
  extract_and_visit (ok archive) s =
      let r = process_tar archive s in
      elim r.0 [ err e ↦ (err (wrap "Failed to process layer" e), r.1) | ok u ↦ complete r.1 ]
