-- ===== src/Tests/Libraries.antt =====
-- Simple libraries to run the program on: a digest of the first bytes, keys that are copied into
-- signatures, and messages whose fields stand behind their lengths.
use mathlib.Core.Option.{some-injective, some-ne-none}
use chain_db.Base.{
  ℕ, zero, suc, ◌^◌, ◌≤◌, ◌<◌, ◌≡◌, refl, sym, ◌∙◌, ap, true, Option, none, some, [], ◌∷◌, ◌++◌,
  arith, if◌then◌else◌, length, take, drop, replicate, length-append, length-replicate, take-append,
  drop-append, ◌==◌, ltb,
}
use chain_db.Base.Bytes.{Bytes, bytes_eq, bytes_eq_refl}
use chain_db.Platform.Sha.{Sha, IsSha, IsTotalSha}
use chain_db.Platform.Curve.{Curve, IsCurve, IsTotalCurve}
use chain_db.Platform.Codec.{HeaderMessage, BlockMessage, Codec, IsCodec, IsTotalCodec}

abbrev pub first_bytes : Bytes → Bytes
first_bytes m = take 32 (m ++ replicate 32 0)

abbrev pub plain_sha : Sha
plain_sha = record {
  Ctx = Bytes;
  sha_init = some [];
  sha_update = λ c d. some (c ++ d);
  sha_final = λ c. some (first_bytes c);
}

length-take : (n : ℕ) (xs : Bytes) → n ≤ length xs → length (take n xs) ≡ n
length-take zero xs h = refl
length-take (suc n) [] h = absurd (omega arith)
length-take (suc n) (x ∷ xs) h = ap suc (length-take n xs (omega arith))

pub length-first_bytes : (m : Bytes) → length (first_bytes m) ≡ 32
length-first_bytes m =
    length-take 32 (m ++ replicate 32 0)
      (omega (arith, length-append m (replicate 32 0), length-replicate {A = ℕ} 32 0))

abbrev pub plain_sha-IsSha : IsSha plain_sha
plain_sha-IsSha = record {
  digest = first_bytes;
  message = λ c. c;
  message-init = λ c e. cc;
  message-update = λ c d c' e. cc;
  final-digest = λ c h e. cc;
  length-digest = length-first_bytes;
}

abbrev pub plain_sha-IsTotalSha : IsTotalSha plain_sha
plain_sha-IsTotalSha = record { init_ok = λ e. cc; update_ok = λ c d e. cc; final_ok = λ c e. cc }

abbrev pub plain_curve : Curve
plain_curve = record {
  PubKey = Bytes;
  Sig = Bytes;
  seckey_verify = λ k. true;
  pubkey_create = λ k. some (k ++ 0 ∷ []);
  pubkey_serialize = λ k. if length k == 33 then some k else none;
  pubkey_parse = λ b. some b;
  ecdsa_sign = λ h k. some (h ++ k);
  sig_serialize_compact = λ s. if length s == 64 then some s else none;
  sig_parse_compact = λ b. some b;
  ecdsa_verify = λ s h k. bytes_eq s (h ++ take 32 k);
}

pub take_sized : (k r : Bytes) (n : ℕ) → length k ≡ n → take n (k ++ r) ≡ k
take_sized k r n e = ap (λ m. take m (k ++ r)) (sym e) ∙ take-append k r

pub plain_sign_verifies :
    (h sk k s : Bytes)
    → length h ≡ 32
    → length sk ≡ 32
    → some (sk ++ 0 ∷ []) ≡ some k
    → some (h ++ sk) ≡ some s
    → bytes_eq s (h ++ take 32 k) ≡ true
plain_sign_verifies h sk k s lh lk e f =
    cc (e, f, take_sized sk (0 ∷ []) 32 lk, bytes_eq_refl (h ++ sk))

abbrev pub plain_curve-IsCurve : IsCurve plain_curve
plain_curve-IsCurve = record {
  pubkey_size = λ k b e. ground arith;
  pubkey_round = λ k b e. ground arith;
  sig_size = λ s b e. ground arith;
  sig_round = λ s b e. ground arith;
  sign_verifies = plain_sign_verifies;
}

pub plain_signs :
    (h sk k : Bytes)
    → length h ≡ 32
    → length sk ≡ 32
    → some (sk ++ 0 ∷ []) ≡ some k
    → (s : Bytes) × (b : Bytes) × (some (h ++ sk) ≡ some s)
      × ((if length s == 64 then some s else none) ≡ some b)
plain_signs h sk k lh lk e =
    let sized : (length (h ++ sk) == 64) ≡ true = ground (arith, length-append h sk) in
    (h ++ sk, h ++ sk, refl, rw sized refl)

abbrev pub plain_curve-IsTotalCurve : IsTotalCurve plain_curve
plain_curve-IsTotalCurve = record { signs = plain_signs }

abbrev pub field : Bytes → Bytes → Bytes
field b rest = length b ∷ b ++ rest

abbrev pub head_field : Bytes → Bytes
head_field [] = []
head_field (n ∷ rest) = take n rest

abbrev pub tail_field : Bytes → Bytes
tail_field [] = []
tail_field (n ∷ rest) = drop n rest

abbrev parse_fields : ℕ → ℕ → Bytes → Option HeaderMessage
parse_fields v i b =
    if ltb v (2 ^ 64)
    then if ltb i (2 ^ 64)
      then some (record {
        version = v;
        index = i;
        payload = head_field b;
        private_key = head_field (tail_field b);
        public_key = head_field (tail_field (tail_field b));
      })
      else none
    else none

abbrev pub parse_plain_header : Bytes → Option HeaderMessage
parse_plain_header [] = none
parse_plain_header (v ∷ []) = none
parse_plain_header (v ∷ i ∷ b) = parse_fields v i b

abbrev pub parse_plain_block : Bytes → Option BlockMessage
parse_plain_block b = some (record {
  hash = head_field b;
  prev_hash = head_field (tail_field b);
  nonce = head_field (tail_field (tail_field b));
  payload = head_field (tail_field (tail_field (tail_field b)));
  signature = head_field (tail_field (tail_field (tail_field (tail_field b))));
})

abbrev pub plain_codec : Codec
plain_codec = record {
  serialize_header = λ m.
      some (m.version ∷ m.index ∷ field m.payload (field m.private_key (field m.public_key [])));
  parse_header = parse_plain_header;
  serialize_block = λ m.
      some
        (field m.hash (field m.prev_hash (field m.nonce (field m.payload (field m.signature [])))));
  parse_block = parse_plain_block;
}

ltb-true : (a b : ℕ) → a < b → ltb a b ≡ true
ltb-true a b h = ground arith

head_field-field : (b rest : Bytes) → head_field (field b rest) ≡ b
head_field-field b rest = take-append b rest

tail_field-field : (b rest : Bytes) → tail_field (field b rest) ≡ rest
tail_field-field b rest = drop-append b rest

pub header_round :
    (m : HeaderMessage)
    → m.version < 2 ^ 64
    → m.index < 2 ^ 64
    → parse_plain_header
        (m.version ∷ m.index ∷ field m.payload (field m.private_key (field m.public_key [])))
      ≡ some m
header_round m u v =
    rw
      (
        ltb-true m.version (2 ^ 64) u,
        ltb-true m.index (2 ^ 64) v,
        take-append,
        drop-append,
        take-append,
        drop-append,
        take-append,
      )
      refl

pub header_range :
    (b : Bytes) (m : HeaderMessage)
    → parse_plain_header b ≡ some m
    → (m.version < 2 ^ 64) × (m.index < 2 ^ 64)
header_range [] m e = absurd (ground arith)
header_range (v ∷ []) m e = absurd (ground arith)
header_range (v ∷ i ∷ b) m e = ground arith

pub block_round :
    (m : BlockMessage)
    → parse_plain_block
        (field m.hash (field m.prev_hash (field m.nonce (field m.payload (field m.signature [])))))
      ≡ some m
block_round m = simp (take-append, drop-append)

abbrev pub plain_codec-IsCodec : IsCodec plain_codec
plain_codec-IsCodec = record {
  header_round =
      λ m b u v e. ap parse_plain_header (sym (some-injective _ b e)) ∙ header_round m u v;
  header_range = header_range;
  block_round = λ m b e. ap parse_plain_block (sym (some-injective _ b e)) ∙ block_round m;
}

abbrev pub plain_codec-IsTotalCodec : IsTotalCodec plain_codec
plain_codec-IsTotalCodec = record {
  header_ok = λ m. some-ne-none _;
  block_ok = λ m. some-ne-none _;
}
