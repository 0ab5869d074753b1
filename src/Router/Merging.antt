-- ===== src/Router/Merging.antt =====
-- What mergeDockerRootOp.apply does to the action and its command.
use bb_action_router.Base.{
  Text, same, ◌≡◌, refl, ap, ◌∙◌, inl, inr, true, false, some, [], arith, Bool-cases,
}
use bb_action_router.Status.{Error, Result, Result-cases, ok, err}
use bb_action_router.Reapi.{Digest, Command, Directory}
use bb_action_router.Router.State.{World, State, get_command}
use bb_action_router.Router.Template.{Template, render}
use bb_action_router.Router.Merge.{
  bazel_input_root_directory_name, has_name, assert_directory_doesnt_contain_name, load_directory,
  put_directory, with_input_root, move_working_directory, merge_image, apply_merge,
}
use bb_action_router.Router.Loading.{
  loaded, AtMostLoads, loaded-action, get_command-loaded, render-AtMostLoads,
}

module _ (w : World) (image : Directory) (c : Command) (s : State) where
  pub merge_image-ok :
      (d : Digest)
      → put_directory w (with_input_root s.action.input_root_digest image) ≡ ok d
      → merge_image w image c s ≡ (
        ok tt,
        record s {
          action = record s.action { input_root_digest = d };
          command = some (ok (move_working_directory c));
          command_changed = true;
        },
      )
  unfolding merge_image
  merge_image-ok d e = rw (e, merge_image) refl

  pub merge_image-err :
      (x : Error)
      → put_directory w (with_input_root s.action.input_root_digest image) ≡ err x
      → merge_image w image c s ≡ (err x, s)
  unfolding merge_image
  merge_image-err x e = rw (e, merge_image) refl

module _ (w : World) (image_ref : Template) (s : State) where
  -- What a merge that succeeds has read, checked and stored.
  pub record Merged : Type 0 where
    pub ref : Text
    pub rendered : (render w image_ref s).0 ≡ ok ref
    pub not_empty : same ref [] ≡ false
    pub command : Command
    pub read : (get_command w s).0 ≡ ok command
    pub root : Digest
    pub found : w.get_dir_digest ref ≡ ok root
    pub image : Directory
    pub fetched : load_directory w root ≡ ok image
    pub no_directory :
        has_name (λ n. n.name) bazel_input_root_directory_name image.directories ≡ false
    pub no_file : has_name (λ n. n.name) bazel_input_root_directory_name image.files ≡ false
    pub no_symlink : has_name (λ n. n.name) bazel_input_root_directory_name image.symlinks ≡ false
    pub digest : Digest
    pub put : put_directory w (with_input_root s.action.input_root_digest image) ≡ ok digest

  abbrev pub AfterMerge : Merged → State
  AfterMerge m = record (loaded w s) {
    action = record (loaded w s).action { input_root_digest = m.digest };
    command = some (ok (move_working_directory m.command));
    command_changed = true;
  }

  pub data Merges : Result (Unit {0}) × State → Type 0 where
    merged : (m : Merged) → Merges (ok tt, AfterMerge m)
    refused : (x : Error) (u : State) → AtMostLoads w s u → Merges (err x, u)

  abbrev Name : Text
  Name = bazel_input_root_directory_name

  assert-ok :
      (d : Directory) (u : Unit {0})
      → assert_directory_doesnt_contain_name d Name ≡ ok u
      → (has_name (λ n. n.name) Name d.directories ≡ false)
        × (has_name (λ n. n.name) Name d.files ≡ false)
        × (has_name (λ n. n.name) Name d.symlinks ≡ false)
  unfolding assert_directory_doesnt_contain_name
  assert-ok d u e = ground arith

  after_render : get_command w (render w image_ref s).1 ≡ get_command w s
  after_render = elim (render-AtMostLoads w image_ref s) [
    | inl e ↦ ap (get_command w) e
    | inr e ↦ ap (get_command w) e ∙ get_command-loaded w s
  ]

  pub apply_merge-Merges : Merges (apply_merge w image_ref s)
  unfolding apply_merge
  apply_merge-Merges = elim (Result-cases (render w image_ref s).0) [
    | inr (x, e) ↦ rw e (refused _ _ (render-AtMostLoads w image_ref s))
    | inl (ref, e) ↦ elim (Bool-cases (same ref [])) [
      | inl f ↦ rw (e, f) (refused _ _ (render-AtMostLoads w image_ref s))
      | inr f ↦ elim (Result-cases (get_command w s).0) [
        | inr (x, g) ↦ rw (e, f, after_render, g) (refused _ _ (inr refl))
        | inl (c, g) ↦ elim (Result-cases (w.get_dir_digest ref)) [
          | inr (x, h) ↦ rw (e, f, after_render, g, h) (refused _ _ (inr refl))
          | inl (root, h) ↦ elim (Result-cases (load_directory w root)) [
            | inr (x, i) ↦ rw (e, f, after_render, g, h, i) (refused _ _ (inr refl))
            | inl (image, i) ↦
                elim (Result-cases (assert_directory_doesnt_contain_name image Name)) [
                  | inr (x, j) ↦ rw (e, f, after_render, g, h, i, j) (refused _ _ (inr refl))
                  | inl (u, j) ↦
                      let free = assert-ok image u j in
                      let same_root = loaded-action w s in
                      let store =
                        put_directory w (with_input_root s.action.input_root_digest image) in
                      elim (Result-cases store) [
                        | inr (x, k) ↦
                            rw
                              (
                                e,
                                f,
                                after_render,
                                g,
                                h,
                                i,
                                j,
                                merge_image-err w image c (loaded w s) x (
                                    ap
                                      (λ a.
                                        put_directory w (with_input_root a.input_root_digest image))
                                      same_root
                                    ∙ k),
                              )
                              (refused _ _ (inr refl))
                        | inl (d, k) ↦
                            rw
                              (
                                e,
                                f,
                                after_render,
                                g,
                                h,
                                i,
                                j,
                                merge_image-ok w image c (loaded w s) d (
                                    ap
                                      (λ a.
                                        put_directory w (with_input_root a.input_root_digest image))
                                      same_root
                                    ∙ k),
                              )
                              (merged (record {
                                ref = ref;
                                rendered = e;
                                not_empty = f;
                                command = c;
                                read = g;
                                root = root;
                                found = h;
                                image = image;
                                fetched = i;
                                no_directory = free.0;
                                no_file = free.1;
                                no_symlink = free.2;
                                digest = d;
                                put = k;
                              }))
                      ]
                ]
          ]
        ]
      ]
    ]
  ]
