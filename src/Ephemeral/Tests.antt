-- ===== src/Ephemeral/Tests.antt =====
-- A storage of texts by their lengths, with a number as a mapping.
use bb_action_router.Base.{
  Text, codes, holds, ℕ, zero, suc, ◌≡◌, refl, subst, false, none, List, [], ◌∷◌, arith, ◌==◌,
  length,
}
use bb_action_router.Status.{Result, ok, err, external, unknown, ok-injective}
use bb_action_router.Ephemeral.BlobAccess.{BlobDirectory, put_chunk, left_by_write, put_encoded}
use bb_action_router.Ephemeral.Refined.{Write, chunk, mapping, write}
use bb_action_router.Ephemeral.Answers.{when_ok, write_all, store_all, Answers, write_all-Answers}

unfoldable key : ℕ → Text
key zero = []
key (suc n) = b'a' ∷ key n

unfoldable decode : Text → Result ℕ
decode (n ∷ []) = ok n
decode _ = err (external unknown)

abbrev storage : BlobDirectory ℕ ℕ
storage = record {
  dir = codes "/cas";
  get_key = key;
  computes_to = λ data_ d. length data_ == d;
  to_compact_binary = λ m. ok (m ∷ []);
  from_compact_binary = λ data_ d. decode data_;
  read_fails = λ path. none;
  stat_fails = λ path. none;
  write_fails = λ path data_. none;
}

key-plain : (d : ℕ) → holds b'.' (key d) ≡ false
unfolding key holds
key-plain zero = refl
key-plain (suc n) = ground (arith, key-plain n)

decode-encoded :
    (m : ℕ) (data_ : Text) (d : ℕ) → Result.ok (m ∷ []) ≡ ok data_ → decode data_ ≡ ok m
unfolding decode
decode-encoded m data_ d e = subst (λ t. decode t ≡ ok m) (ok-injective e) refl

abbrev writes : List (Write ℕ ℕ)
writes = chunk 2 (codes "ab") ∷ mapping 2 7 ∷ chunk 3 (codes "ab") ∷ []

written_all : (write_all storage writes []).0 ≡ ok tt
unfolding write_all when_ok write put_chunk put_encoded left_by_write
written_all = refl

write_all-Answers_example :
    Answers storage
      (write_all storage writes []).1
      (store_all storage writes (record { chunks = []; mappings = [] }))
write_all-Answers_example =
    write_all-Answers storage key-plain decode-encoded (λ path. (refl, refl)) writes written_all
