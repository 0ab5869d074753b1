-- ===== src/Chroot/Tests.antt =====
-- Paths that are split, and one that is refused.
use bb_action_router.Base.{codes, same, join_with, split_slash, add_byte, ◌≡◌, refl}
use bb_action_router.Status.{ok, err, status, unknown}
use bb_action_router.Chroot.Split.{
  root_of, split_parts, split_chroot_path, Answers, split_chroot_path-Answers,
}

splits :
    split_chroot_path (codes "/b/1/bazel_exec_root/x")
    ≡ ok (codes "/b/1", codes "/bazel_exec_root/x")
unfolding split_chroot_path split_parts split_slash add_byte root_of join_with same
splits = refl

splits_at_the_top :
    split_chroot_path (codes "/bazel_exec_root") ≡ ok (codes "/", codes "/bazel_exec_root")
unfolding split_chroot_path split_parts split_slash add_byte root_of join_with same
splits_at_the_top = refl

refuses_a_longer_name :
    split_chroot_path (codes "/bazel_exec_roots")
    ≡ err (status unknown "could not find %s in path %s")
unfolding split_chroot_path split_parts split_slash add_byte root_of join_with same
refuses_a_longer_name = refl

split_chroot_path-Answers_example :
    Answers (codes "/b/bazel_exec_root/x") (split_chroot_path (codes "/b/bazel_exec_root/x"))
split_chroot_path-Answers_example = split_chroot_path-Answers (codes "b/bazel_exec_root/x")
