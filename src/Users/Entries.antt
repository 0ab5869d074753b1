-- ===== src/Users/Entries.antt =====
-- setIDEntry and BuildUserInjectingVisitor of pkg/blobstore/build_user_injecting_visitor.go.
use bb_action_router.Base.{
  Text, codes, same, join_with, decimal, atoi, ℤ, pos, negsuc, ℕ, zero, suc, Bool, false, Option,
  none, some, List, [], ◌∷◌, ◌++◌, ◌==◌, if◌then◌else◌,
}
use bb_action_router.Status.{Error, Result, ok, err, errorf, or_else, ◌>>=◌}
use bb_action_router.Router.Config.{UnixUser}
use bb_action_router.Layers.Tree.{Dir}
use bb_action_router.Layers.Events.{Uploader, Event, file_seen, on_event}
use bb_action_router.Users.Lines.{cons_byte, scan}

-- strings.SplitN(s, ":", cuts + 1)
unfoldable pub split_n : ℕ → Text → List Text
split_n cuts [] = [] ∷ []
split_n zero (c ∷ s) = (c ∷ s) ∷ []
split_n (suc cuts) (c ∷ s) =
    let cut = [] ∷ split_n cuts s in
    let same_field = cons_byte c (split_n (suc cuts) s) in if c == b':' then cut else same_field

-- What the entry keeps of the lines that it replaces.
pub record Kept : Type 0 where
  pub name : Text
  pub shell : Text
  pub members : Text

unfoldable pub is_id : ℕ → Option ℤ → Bool
is_id id none = false
is_id id (some (pos n)) = n == id
is_id id (some (negsuc n)) = false

-- The test for a line that has the id in its third field.
unfoldable pub has_id : ℕ → List Text → Bool
unfolding is_id
has_id id (name ∷ password ∷ field ∷ fields) = is_id id (atoi field)
has_id id _ = false

unfoldable pub take_fields : List Text → Kept → Kept
take_fields (a ∷ b ∷ c ∷ d ∷ e ∷ f ∷ g ∷ []) k = record { name = a; shell = g; members = d }
take_fields (a ∷ b ∷ c ∷ d ∷ fields) k = record { name = a; shell = k.shell; members = d }
take_fields (a ∷ fields) k = record { name = a; shell = k.shell; members = k.members }
take_fields [] k = k

-- One round of the loop.
unfoldable pub take_line : ℕ → Text → Kept × List Text → Kept × List Text
take_line id line (k, lines) =
    if has_id id (split_n 6 line)
    then (take_fields (split_n 6 line) k, lines)
    else (k, lines ++ (line ∷ []))

unfoldable pub take_lines : ℕ → List Text → Kept × List Text → Kept × List Text
take_lines id [] r = r
take_lines id (line ∷ lines) r = take_lines id lines (take_line id line r)

abbrev pub default_entry : Text → Kept
default_entry name = record { name = name; shell = codes "/bin/sh"; members = [] }

unfoldable pub set_id_entry : ℕ → Text → (Kept → Text) → Text → Option Error → Result Text
set_id_entry id default_name entry_line data_ failure = scan data_ failure >>= λ lines.
    let r = take_lines id lines (default_entry default_name, []) in
    ok (join_with (codes "\n") (r.1 ++ (entry_line r.0 ∷ [])))

abbrev pub number : ℕ → Text
number n = decimal (suc n) n []

module _ (user : UnixUser) where
  unfoldable pub passwd_line : Kept → Text
  passwd_line k =
      k.name
      ++ (codes ":x:"
          ++ (number user.uid
              ++ (codes ":" ++ (number user.gid ++ (codes "::/tmp:" ++ (k.shell ++ codes "\n"))))))

  unfoldable pub group_line : Kept → Text
  group_line k =
      k.name ++ (codes ":x:" ++ (number user.gid ++ (codes ":" ++ (k.members ++ codes "\n"))))

  unfoldable pub set_passwd : Text → Option Error → Result Text
  set_passwd = set_id_entry user.uid user.name passwd_line

  unfoldable pub set_group : Text → Option Error → Result Text
  set_group = set_id_entry user.gid user.name group_line

  -- Where the archive fails while a file is scanned, if it does.
  module _ (failure : Text → Option Error) where
    unfoldable pub inject : Text → Text → Result Text
    inject path data_ =
        if same path (codes "etc/passwd")
        then or_else (set_passwd data_ (failure path))
            (errorf "ensuring /etc/passwd has the build user: %w")
        else if same path (codes "etc/group")
        then or_else (set_group data_ (failure path))
            (errorf "ensuring /etc/group has the build group: %w")
        else ok data_

    -- BuildUserInjectingVisitor around the extractor.
    unfoldable pub on_injected : Uploader → Event → Dir → Result (Unit {0}) × Dir
    on_injected u (file_seen path data_ mode) root = elim (inject path data_) [
      | err e ↦ (err e, root)
      | ok content ↦ on_event u (file_seen path content mode) root
    ]
    on_injected u event root = on_event u event root
