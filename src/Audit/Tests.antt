-- ===== src/Audit/Tests.antt =====
-- Concrete runs of the audit journal.
use zenov_os.Prelude.{◌≡◌, ◌⊎◌, refl, arith, [], ◌∷◌, ◌++◌, true, false, replicate}
use zenov_os.Prelude.Bytes.{Bytes, codes, str_eq, all_bytes}
use zenov_os.Prelude.Result.{ok}
use zenov_os.Package.Sha256.{hash}
use zenov_os.Audit.Digest.{
  sha256, sha_final, sha_update, sha_init, last_state, transform, transform_full, add_bytes,
  put_zeros, write_length, store_state, store_be32, add_state, mix_all, mix, more_words, word_sum,
  load_words, load_be32, rotate_right,
}
use zenov_os.Audit.Digest.Hashes.{hash-sha256}
use zenov_os.Audit.Format.{
  Header, Record, no_record, initialize_empty, record_hash, verify, verify_from, header_valid,
  record_valid, same_hash, difference_of, all_zero, value_of, sha256_self_test,
}
use zenov_os.Audit.Format.Hashes.{IsHash, record_hash-IsHash}
use zenov_os.Audit.Format.Chain.{Collide, all_hold_bytes, messages, first_index, messages-verify}

self_test : sha256_self_test ≡ true
unfolding sha256_self_test same_hash difference_of sha256 sha_final sha_update sha_init last_state
    transform transform_full add_bytes put_zeros write_length store_state store_be32 add_state
    mix_all mix more_words word_sum load_words load_be32 rotate_right
self_test = refl

empty_accepted : verify initialize_empty false ≡ true
unfolding verify header_valid all_zero value_of str_eq
empty_accepted = refl

hash-sha256_example : hash (codes "abc") ≡ ok (sha256 (codes "abc"))
hash-sha256_example = hash-sha256 (codes "abc") (omega arith)

abbrev no_hash : Bytes
no_hash = replicate 32 0

abbrev unsigned : Record
unsigned = record no_record {
  sequence = 1;
  tick = 40;
  action = 2;
  verdict = 1;
  path_length = 4;
  path = codes "/etc" ++ replicate 44 0;
}

abbrev first_hash : Bytes
first_hash = record_hash unsigned no_hash

abbrev signed : Record
signed = record unsigned { hash = first_hash }

abbrev sample_header : Header
sample_header = record initialize_empty.header {
  count = 1;
  next_index = 1;
  next_sequence = 2;
  head_hash = first_hash;
}

sample_accepted : verify (record { header = sample_header; records = signed ∷ [] }) true ≡ true
unfolding verify verify_from header_valid record_valid all_zero value_of str_eq all_bytes
    record_hash same_hash difference_of sha256 sha_final sha_update sha_init last_state transform
    transform_full add_bytes put_zeros write_length store_state store_be32 add_state mix_all mix
    more_words word_sum load_words load_be32 rotate_right
sample_accepted = refl

longer_accepted :
    verify (record { header = sample_header; records = signed ∷ unsigned ∷ [] }) false ≡ true
unfolding verify verify_from header_valid record_valid all_zero value_of str_eq all_bytes
    record_hash same_hash difference_of sha256 sha_final sha_update sha_init last_state transform
    transform_full add_bytes put_zeros write_length store_state store_be32 add_state mix_all mix
    more_words word_sum load_words load_be32 rotate_right
longer_accepted = refl

no_hash-IsHash : IsHash no_hash
unfolding IsHash all_bytes
no_hash-IsHash = (refl, refl)

messages-verify_example :
    (messages 1 (first_index sample_header) (signed ∷ []) no_hash
      ≡ messages 1 (first_index sample_header) (signed ∷ unsigned ∷ []) no_hash)
    ⊎ Collide
        (messages 1 (first_index sample_header) (signed ∷ []) no_hash)
        (messages 1 (first_index sample_header) (signed ∷ unsigned ∷ []) no_hash)
messages-verify_example =
    messages-verify sample_header (signed ∷ []) (signed ∷ unsigned ∷ []) true false no_hash-IsHash
      (record_hash-IsHash unsigned no_hash) (unfold all_hold_bytes all_bytes in refl)
      (unfold all_hold_bytes all_bytes in refl) sample_accepted longer_accepted
