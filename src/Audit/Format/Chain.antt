-- ===== src/Audit/Format/Chain.antt =====
-- The chain of the hashes in the audit journal: what a verified journal pins down.
use zenov_os.Prelude.{
  ℕ, zero, suc, ◌+◌, ◌/◌, ◌-◌, ◌%◌, ◌≡◌, ◌≢◌, refl, sym, ap, ◌∙◌, arith, List, [], ◌∷◌, Bool, true,
  false, ◌⊎◌, inl, inr, ==_iff, ◌++◌, take, drop, get_or, ◌==◌, if◌then◌else◌, Bool-cases, length,
  ltb, u8, ◌&&◌, ◌<◌, and_split,
}
use zenov_os.Prelude.Bytes.{Bytes, str_eq, all_bytes}
use zenov_os.Prelude.Bytes.Laws.{str_eq_iff, append_assoc, take-append}
use zenov_os.Audit.Digest.{sha256}
use zenov_os.Audit.Format.{
  Record, Header, Journal, metadata_of, domain, no_record, capacity, record_hash, verify_from,
  verify,
}
use zenov_os.Audit.Format.Hashes.{
  IsHash, same_hash_lem, record_hash-IsHash, hashed, joined, record_hash-sha256,
}

-- A text of bytes.
abbrev pub are_bytes : Bytes → Bool
are_bytes text = all_bytes (λ b. ltb b 256) text

-- At one place the lists have two different messages, both of bytes, with one digest.
abbrev pub Collide : List Bytes → List Bytes → Type 0
Collide ms ns =
    (k : ℕ) × (k < length ms)
    × (k < length ns)
    × (are_bytes (get_or ms k []) ≡ true)
    × (are_bytes (get_or ns k []) ≡ true)
    × (get_or ms k [] ≢ get_or ns k [])
    × (sha256 (get_or ms k []) ≡ sha256 (get_or ns k []))

-- The arrays and the byte fields of a record hold bytes.
abbrev pub holds_bytes : Record → Bool
holds_bytes r = are_bytes r.path && (are_bytes r.digest && (ltb r.action 256 && ltb r.verdict 256))

unfoldable pub all_hold_bytes : List Record → Bool
all_hold_bytes [] = true
all_hold_bytes (r ∷ records) = holds_bytes r && all_hold_bytes records

get_or-holds_bytes :
    (records : List Record) (i : ℕ)
    → all_hold_bytes records ≡ true
    → holds_bytes (get_or records i no_record) ≡ true
unfolding all_hold_bytes all_bytes
get_or-holds_bytes [] i h = refl
get_or-holds_bytes (r ∷ records) zero h = (and_split _ _ h).0
get_or-holds_bytes (r ∷ records) (suc i) h = get_or-holds_bytes records i (and_split _ _ h).1

-- What is hashed along the chain.
unfoldable pub messages : ℕ → ℕ → List Record → Bytes → List Bytes
messages zero index records previous = []
messages (suc rounds) index records previous =
    let r = get_or records (index % capacity) no_record in
    hashed r previous ∷ messages rounds (index + 1) records (record_hash r previous)

hashed-are_bytes :
    (r : Record) (previous : Bytes)
    → IsHash previous
    → holds_bytes r ≡ true
    → are_bytes (hashed r previous) ≡ true
unfolding hashed IsHash
hashed-are_bytes r previous p h =
    let (path, rest) = and_split (are_bytes r.path) _ h in
    let (digest, fields) = and_split (are_bytes r.digest) _ rest in
    let (action, verdict) = and_split (ltb r.action 256) _ fields in
    let start : are_bytes domain ≡ true = unfold all_bytes in refl in
    let low : (n : ℕ) → ltb (u8 n) 256 ≡ true = λ n. ground arith in
    let metadata : are_bytes (metadata_of r) ≡ true =
      unfold all_bytes in
      (rw
        (
          low r.sequence,
          low (r.sequence / 256),
          low (r.sequence / 65536),
          low (r.sequence / 16777216),
          low r.tick,
          low (r.tick / 256),
          low (r.tick / 65536),
          low (r.tick / 16777216),
          action,
          verdict,
          low r.path_length,
          low (r.path_length / 256),
        )
        refl) in
    joined _ _ (joined _ _ (joined _ _ (joined _ _ start p.1) metadata) path) digest

-- The hash of the record before can be read from what is hashed.
hashed-previous :
    (r : Record) (previous : Bytes)
    → IsHash previous
    → take 32 (drop 16 (hashed r previous)) ≡ previous
unfolding hashed IsHash
hashed-previous r previous h =
    let metadata = metadata_of r in
    ap (λ t. take 32 t)
      (append_assoc (previous ++ metadata) r.path r.digest
        ∙ append_assoc previous metadata (r.path ++ r.digest))
    ∙ ap (λ k. take k (previous ++ (metadata ++ (r.path ++ r.digest)))) (sym h.0)
    ∙ take-append previous (metadata ++ (r.path ++ r.digest))

if_true : (test rest : Bool) → (if test then rest else false) ≡ true → rest ≡ true
if_true true rest h = h
if_true false rest h = cc

Collide-later : (m n : Bytes) (ms ns : List Bytes) → Collide ms ns → Collide (m ∷ ms) (n ∷ ns)
Collide-later m n ms ns (k, a, b, c, d, apart, same) =
    (suc k, omega arith, omega arith, c, d, apart, same)

-- Chains that end in one hash start with one and hash the same messages, or they show a collision.
chain_lem :
    (rounds index sequence sequence' : ℕ) (records records' : List Record)
    (previous previous' head : Bytes)
    → all_hold_bytes records ≡ true
    → all_hold_bytes records' ≡ true
    → IsHash previous
    → IsHash previous'
    → IsHash head
    → verify_from rounds index sequence records previous head ≡ true
    → verify_from rounds index sequence' records' previous' head ≡ true
    → ((messages rounds index records previous ≡ messages rounds index records' previous')
        × (previous ≡ previous'))
      ⊎ Collide (messages rounds index records previous) (messages rounds index records' previous')
unfolding messages verify_from
chain_lem zero index sequence sequence' records records' previous previous' head b b' p p' h v v' =
    inl (refl, same_hash_lem previous head p h v ∙ sym (same_hash_lem previous' head p' h v'))
chain_lem (suc rounds) index sequence sequence' records records' previous previous' head b b' p p' h
      v v' =
    let r = get_or records (index % capacity) no_record in
    let r' = get_or records' (index % capacity) no_record in
    let m = hashed r previous in
    let n = hashed r' previous' in
    let ms = messages rounds (index + 1) records (record_hash r previous) in
    let ns = messages rounds (index + 1) records' (record_hash r' previous') in
    let rest =
      chain_lem rounds (index + 1) (sequence + 1) (sequence' + 1) records records'
        (record_hash r previous) (record_hash r' previous') head b b'
        (record_hash-IsHash r previous) (record_hash-IsHash r' previous') h (if_true _ _ v)
        (if_true _ _ v') in
    elim rest [
      | inr found ↦ inr (Collide-later m n ms ns found)
      | inl same ↦
          let digests : sha256 m ≡ sha256 n =
            sym (record_hash-sha256 r previous) ∙ same.1 ∙ record_hash-sha256 r' previous' in
          elim (Bool-cases (str_eq m n)) [
            | inr e ↦ inr (
              0,
              omega arith,
              omega arith,
              hashed-are_bytes r previous p (get_or-holds_bytes records (index % capacity) b),
              hashed-are_bytes r' previous' p' (get_or-holds_bytes records' (index % capacity) b'),
              (λ equal. cc (e, (str_eq_iff m n).1 equal)),
              digests,
            )
            | inl e ↦
                let message = (str_eq_iff m n).0 e in
                inl (
                  ap (λ t. t ∷ ms) message ∙ ap (λ t. n ∷ t) same.0,
                  sym (hashed-previous r previous p)
                      ∙ ap (λ t. take 32 (drop 16 t)) message
                      ∙ hashed-previous r' previous' p',
                )
          ]
    ]

abbrev pub first_index : Header → ℕ
first_index h = if h.count == capacity then h.next_index else 0

verify_chain :
    (journal : Journal) (require_nonempty : Bool)
    → verify journal require_nonempty ≡ true
    → (journal.header.count == 0) ≡ false
    → verify_from journal.header.count
        (first_index journal.header)
        (journal.header.next_sequence - journal.header.count)
        journal.records
        journal.header.anchor_hash
        journal.header.head_hash
      ≡ true
unfolding verify
verify_chain journal require_nonempty v some_record = ground arith

-- Two journals with one header that `verify` accepts, with or without the demand for a record, whose
-- anchor and head are hashes of thirty-two bytes and whose records hold bytes: what is hashed for
-- their records, in the order of the records, is the same, or at some record the two journals
-- themselves hash two different messages to one SHA-256 digest. If the journals hold no record,
-- nothing is hashed.
pub messages-verify :
    (header : Header) (records records' : List Record) (require_nonempty require_nonempty' : Bool)
    → IsHash header.anchor_hash
    → IsHash header.head_hash
    → all_hold_bytes records ≡ true
    → all_hold_bytes records' ≡ true
    → verify (record { header = header; records = records }) require_nonempty ≡ true
    → verify (record { header = header; records = records' }) require_nonempty' ≡ true
    → (messages header.count (first_index header) records header.anchor_hash
        ≡ messages header.count (first_index header) records' header.anchor_hash)
      ⊎ Collide
          (messages header.count (first_index header) records header.anchor_hash)
          (messages header.count (first_index header) records' header.anchor_hash)
messages-verify header records records' e e' a h b b' v v' = elim (Bool-cases (header.count == 0)) [
  | inl none ↦
      let no_rounds : header.count ≡ 0 = (==_iff header.count 0).0 none in
      inl (unfold messages in (rw no_rounds refl))
  | inr some_record ↦
      elim (chain_lem header.count (first_index header) (header.next_sequence - header.count)
        (header.next_sequence - header.count) records records' header.anchor_hash header.anchor_hash
        header.head_hash b b' a a h
        (verify_chain (record { header = header; records = records }) e v some_record)
        (verify_chain (record { header = header; records = records' }) e' v' some_record)) [
          | inl same ↦ inl same.0
          | inr found ↦ inr found
        ]
]
