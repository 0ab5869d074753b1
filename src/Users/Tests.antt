-- ===== src/Users/Tests.antt =====
-- Files with and without an entry for the build user, and the theorems on them.
use bb_action_router.Base.{
  Text, codes, join_with, decimal, digits_value, signed, magnitude, atoi, ◌≡◌, refl, ◌⊎◌, true,
  false, Option, none, some, [], ◌∷◌, ◌++◌, map, arith,
}
use bb_action_router.Status.{Error, ok, err, ◌>>=◌}
use bb_action_router.Router.Config.{UnixUser}
use bb_action_router.Users.Lines.{cons_byte, split_lines, drop_cr, fits, scan}
use bb_action_router.Users.Entries.{
  Kept, split_n, is_id, has_id, take_fields, take_line, take_lines, default_entry, set_id_entry,
  passwd_line, group_line, set_passwd, set_group,
}
use bb_action_router.Users.Replaced.{others, IsKept, set_id_entry_lem}
use bb_action_router.Users.Again.{HasOne}
use bb_action_router.Users.RoundTrip.{IsPlain, set_again}

abbrev user : UnixUser
user = record { uid = 1000; gid = 1000; name = codes "build" }

abbrev image_passwd : Text
image_passwd = codes "root:x:0:0::/root:/bin/sh\nubuntu:x:1000:1000::/home/ubuntu:/bin/bash\n"

keeps_name_and_shell :
    set_passwd user image_passwd none
    ≡ ok (codes "root:x:0:0::/root:/bin/sh\nubuntu:x:1000:1000::/tmp:/bin/bash\n")
unfolding set_passwd set_id_entry scan fits split_lines cons_byte drop_cr take_lines take_line
    split_n has_id is_id atoi magnitude digits_value signed take_fields passwd_line join_with
    decimal ◌>>=◌
keeps_name_and_shell = refl

adds_to_an_empty_file : set_group user [] none ≡ ok (codes "build:x:1000:\n")
unfolding set_group set_id_entry scan fits split_lines cons_byte drop_cr take_lines take_line
    split_n has_id is_id atoi magnitude digits_value signed take_fields group_line join_with decimal
    ◌>>=◌
adds_to_an_empty_file = refl

keeps_members :
    set_group user (codes "dev:x:1000:ann,bob\r\nbuild:x:7:") none
    ≡ ok (codes "build:x:7:\ndev:x:1000:ann,bob\n")
unfolding set_group set_id_entry scan fits split_lines cons_byte drop_cr take_lines take_line
    split_n has_id is_id atoi magnitude digits_value signed take_fields group_line join_with decimal
    ◌>>=◌
keeps_members = refl

user-IsPlain : IsPlain user
user-IsPlain = record {
  uid = omega arith;
  gid = omega arith;
  colon = ground arith;
  newline = ground arith;
  cr = ground arith;
}

fits-image_passwd : fits (split_lines image_passwd) ≡ true
unfolding fits split_lines cons_byte
fits-image_passwd = refl

set_again_example :
    ((entry after : Text) × HasOne 1000 (set_passwd user) image_passwd entry after)
    × ((entry after : Text) × HasOne 1000 (set_group user) image_passwd entry after)
set_again_example = set_again user user-IsPlain image_passwd (ground arith) fits-image_passwd

set_id_entry_example :
    ((k : Kept) × (fits (split_lines image_passwd) ≡ true)
      × (◌≡◌ {A = Option Error} none none)
      × IsKept 1000 (map drop_cr (split_lines image_passwd)) (default_entry (codes "build")) k
      × (set_id_entry 1000 (codes "build") (passwd_line user) image_passwd none
          ≡ ok (
              join_with (codes "\n") (
                others 1000 (map drop_cr (split_lines image_passwd))
                ++ (passwd_line user k ∷ [])))))
    ⊎ ((e : Error) × ((fits (split_lines image_passwd) ≡ false) ⊎ (none ≡ some e))
        × (set_id_entry 1000 (codes "build") (passwd_line user) image_passwd none ≡ err e))
set_id_entry_example = set_id_entry_lem 1000 (codes "build") (passwd_line user) image_passwd none
