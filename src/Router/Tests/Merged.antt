-- ===== src/Router/Tests/Merged.antt =====
-- The working directory that a merge leaves, given to the chroot helper.
use bb_action_router.Base.{codes, same, split_slash, add_byte, ◌≡◌, refl, ◌++◌}
use bb_action_router.Status.{ok}
use bb_action_router.Router.State.{get_command, load_command}
use bb_action_router.Router.Template.{output, render}
use bb_action_router.Router.Merge.{
  apply_merge, move_working_directory, load_directory, put_directory, merge_image,
  assert_directory_doesnt_contain_name, has_name,
}
use bb_action_router.Chroot.Split.{split_chroot_path}
use bb_action_router.Chroot.Merged.{merged_root_is_found}
use bb_action_router.Router.Tests.{command, world, begin}

merged_root_is_found_example :
    split_chroot_path
      (codes "/b/1" ++ (codes "/" ++ (move_working_directory command).working_directory))
    ≡ ok (codes "/b/1", codes "/" ++ (move_working_directory command).working_directory)
unfolding apply_merge get_command load_command render load_directory put_directory merge_image
    assert_directory_doesnt_contain_name has_name same split_slash add_byte
merged_root_is_found_example =
    merged_root_is_found world (output (codes "img")) begin (move_working_directory command) b'/'
      (codes "b/1") refl refl (refl, (refl, (refl, tt)))
