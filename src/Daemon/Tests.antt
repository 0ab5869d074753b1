-- ===== src/Daemon/Tests.antt =====
-- A host on which a root is made, and one that leaves it behind.
use bb_action_router.Base.{
  Text, codes, same, strip_prefix, trim_prefix, member, without, ℕ, zero, suc, ◌≡◌, refl, subst,
  inl, inr, Bool, true, false, ◌&&◌, none, some, List, [], ◌∷◌, ◌++◌, arith, ltb, if◌then◌else◌,
  Bool-cases,
}
use bb_action_router.Status.{
  Result, ok, err, status, unknown, internal, external, ok-injective, ◌>>=◌,
}
use bb_action_router.Reapi.{Digest}
use bb_action_router.Registry.References.{
  match_here, all_hex, find_digest, validate_image_reference,
}
use bb_action_router.Daemon.Materialize.{
  Materializer, remove_all, ensure_dirs, populate_root, fill_root, build_root, rename_dir,
  final_path, moved_to, move_root, place_root, materialize_from, materialize,
}
use bb_action_router.Router.Template.{trim_left, trim_space, strip_one}
use bb_action_router.Daemon.Connection.{
  Roots, read_string, split_two, parse_request, answer, serve, serve_line, handle_connection,
}
use bb_action_router.Daemon.Answered.{Answered, IsPlain, handle_connection_lem}
use bb_action_router.Daemon.Cleaned.{Materialized, materialize_lem}

abbrev digest : Digest
digest = record { hash = codes "tree"; size_bytes = 1 }

-- A temporary directory gets the first number that no directory has.
unfoldable pub first_free : ℕ → Text → List Text → Text
first_free zero prefix dirs = prefix
first_free (suc n) prefix dirs =
    let rest = first_free n (prefix ++ codes "0") dirs in
    if member prefix dirs then rest else prefix

unfoldable pub free_dir : Text → List Text → Result Text
free_dir prefix dirs =
    let d = first_free 10 prefix dirs in if member d dirs then err (external internal) else ok d

free_dir-new :
    (prefix d : Text) (dirs : List Text) → free_dir prefix dirs ≡ ok d → member d dirs ≡ false
unfolding free_dir
free_dir-new prefix d dirs e = elim (Bool-cases (member (first_free 10 prefix dirs) dirs)) [
  | inl t ↦ cc (
      subst (λ b. (if b then err (external internal) else ok (first_free 10 prefix dirs)) ≡ ok d) t
        e)
  | inr f ↦
      subst (λ x. member x dirs ≡ false)
        (ok-injective (
          subst
            (λ b. (if b then err (external internal) else ok (first_free 10 prefix dirs)) ≡ ok d) f
            e))
        f
]

abbrev pub host : Materializer
host = record {
  roots_dir = codes "/roots";
  mkdir_temp = λ prefix dirs. free_dir (codes "/roots/" ++ prefix) dirs;
  upload_image_to_cas = λ cas ref. ok digest;
  new_digest_from_proto = λ d. ok d;
  chmod = λ d. ok tt;
  open_dir = λ d. ok tt;
  merge_directory_contents = λ dir d. ok tt;
  mkdir_all = λ d. ok tt;
  parse_reference = λ ref. ok (record { registry = codes "gcr.io" });
  new_digest = λ ref. elim (find_digest ref) [
    | some digits ↦ ok (codes "sha256:" ++ digits)
    | none ↦ err (external unknown)
  ];
  rename_fails = λ from to. none;
  remove_fails = λ dir dirs. false;
}

abbrev digits : Text
digits = codes "00000000111111112222222233333333444444445555555566666666777777ff"

abbrev image : Text
image = codes "gcr.io/a@sha256:" ++ digits

pub host_fresh :
    (prefix d : Text) (dirs : List Text)
    → host.mkdir_temp prefix dirs ≡ ok d
    → member d dirs ≡ false
host_fresh prefix d dirs = free_dir-new (codes "/roots/" ++ prefix) d dirs

-- The root stays when the digest of the reference is refused after it was built.
leaves_a_root :
    materialize host (codes "gcr.io/a") []
    ≡ (err (status unknown "invalid image ref: %s"), codes "/roots/.tmp-root-" ∷ [])
unfolding materialize remove_all materialize_from build_root fill_root populate_root ensure_dirs
    place_root final_path free_dir first_free ◌>>=◌ find_digest match_here all_hex
    validate_image_reference member same without strip_prefix
leaves_a_root = refl

makes_a_root :
    materialize host image [] ≡ (ok (codes "/roots/" ++ digits), (codes "/roots/" ++ digits) ∷ [])
unfolding materialize remove_all materialize_from build_root fill_root populate_root ensure_dirs
    place_root final_path move_root rename_dir moved_to free_dir first_free ◌>>=◌ find_digest
    match_here all_hex validate_image_reference member same without strip_prefix trim_prefix
makes_a_root = refl

materialize_lem_example : Materialized host host_fresh image [] (materialize host image [])
materialize_lem_example = materialize_lem host host_fresh image []

-- A server is the list of the references that are held.
abbrev roots : Roots (List Text)
roots = record {
  acquire = λ ref held.
      if same ref (codes "gcr.io/a")
      then (ok (codes "/roots/a", without ref), ref ∷ held)
      else (err (external unknown), held);
  message = λ e. codes "unknown";
}

serves_and_releases :
    handle_connection roots (λ held. codes "other" ∷ held) (codes "ACQUIRE gcr.io/a\nmore") []
    ≡ (codes "HI\nOK /roots/a\n", codes "other" ∷ [])
unfolding handle_connection serve_line serve answer read_string parse_request split_two trim_space
    trim_left strip_one strip_prefix same without
serves_and_releases = refl

refuses_other_requests :
    handle_connection roots (λ held. held) (codes "RELEASE gcr.io/a\n") []
    ≡ (codes "HI\nERROR invalid request: RELEASE gcr.io/a\n", [])
unfolding handle_connection serve_line serve answer read_string parse_request split_two trim_space
    trim_left strip_one strip_prefix same
refuses_other_requests = refl

abbrev plain_text : Text → Bool
plain_text [] = true
plain_text (c ∷ s) = (ltb 32 c && ltb c 127) && plain_text s

plain_text-IsPlain : (s : Text) → plain_text s ≡ true → IsPlain s
plain_text-IsPlain [] e = tt
plain_text-IsPlain (c ∷ s) e = (ground arith, plain_text-IsPlain s (ground arith))

handle_connection_example :
    Answered roots
      (λ held. codes "other" ∷ held)
      (roots.acquire (codes "gcr.io/a") [])
      (handle_connection roots
        (λ held. codes "other" ∷ held)
        (codes "ACQUIRE " ++ (codes "gcr.io/a" ++ (codes "\n" ++ codes "more")))
        [])
handle_connection_example =
    handle_connection_lem roots (λ held. codes "other" ∷ held) (codes "gcr.io/a") (codes "more") []
      (λ e. cc e) (plain_text-IsPlain (codes "gcr.io/a") refl)
