-- ===== src/Tests/Toys.antt =====
-- Concrete libraries for the tests. They keep what the code relies on and nothing else.
use baas_go_sdk.Base.{
  ℕ, zero, suc, sym, ap, ◌%◌, ◌≡◌, refl, Option, none, some, [], ◌∷◌, ◌++◌, arith, if◌then◌else◌,
  length, length-append, take, drop, take-append, drop-append, take-append-drop, replicate,
  Bool-cases, inl, inr,
}
use mathlib.Core.Path.{subst}
use baas_go_sdk.Base.Text.{Bytes, codes, str_eq, str_eq_iff, str_eq_refl}
use baas_go_sdk.Base.Int.{pos}
use baas_go_sdk.Base.All.{All}
use baas_go_sdk.Encoding.Hex.{IsByte}
use baas_go_sdk.Encoding.Base64
use baas_go_sdk.Codec.{Zstd, IsZstd}
use baas_go_sdk.Encrypt.{Primitives, IsAead}
use baas_go_sdk.Encrypt.Keyfile.{
  Argon2Params, KeyfileData, KeyfileLibrary, IsKeyfileLibrary, keyfile_of,
}
use baas_go_sdk.Pipeline.Objects.{Libraries}

-- Compression of a run of eight 7s at the start, behind the magic of a zstd frame.
abbrev magic : Bytes
magic = 0x28 ∷ 0xb5 ∷ 0x2f ∷ 0xfd ∷ []

abbrev sevens : Bytes
sevens = replicate 8 7

abbrev toy_encode : Bytes → Bytes
toy_encode raw =
    if str_eq (take 8 raw) sevens then magic ++ (1 ∷ drop 8 raw) else magic ++ (0 ∷ raw)

abbrev toy_frame : Bytes → Option Bytes
toy_frame (zero ∷ raw) = some raw
toy_frame (suc _ ∷ raw) = some (sevens ++ raw)
toy_frame [] = none

abbrev toy_decode : Bytes → Option Bytes
toy_decode stored = if str_eq (take 4 stored) magic then toy_frame (drop 4 stored) else none

abbrev pub toy_zstd : Zstd
toy_zstd = record { encode_all = toy_encode; decode_all = toy_decode }

toy_decode-toy_encode : (raw : Bytes) → toy_decode (toy_encode raw) ≡ some raw
toy_decode-toy_encode raw = elim (Bool-cases (str_eq (take 8 raw) sevens)) [
  | inl run ↦
      let e : sevens ++ drop 8 raw ≡ raw =
        subst (λ s. s ++ drop 8 raw ≡ raw) ((str_eq_iff (take 8 raw) sevens).0 run)
          (take-append-drop 8 raw) in
      rw (run, str_eq_refl magic) (ap some e)
  | inr other ↦ rw (other, str_eq_refl magic)
]

pub toy_zstd-IsZstd : IsZstd toy_zstd
toy_zstd-IsZstd = record { decode-encode = toy_decode-toy_encode }

-- A tag that depends on the first byte of the key, in front of the plain text.
abbrev tag : Bytes → Bytes
tag [] = replicate 16 0
tag (k ∷ key) = k % 256 ∷ replicate 15 0

abbrev toy_open : Bytes → Bytes → Bytes → Option Bytes
toy_open key nonce sealed =
    if str_eq (take 16 sealed) (tag key) then some (drop 16 sealed) else none

abbrev pub toy_primitives : Primitives
toy_primitives = record {
  gcm_seal = λ key nonce plain. tag key ++ plain;
  gcm_open = toy_open;
  hkdf = λ key salt info n. some (replicate n 5);
}

length-tag : (key : Bytes) → length (tag key) ≡ 16
length-tag [] = refl
length-tag (k ∷ key) = refl

zeros-bytes : (n : ℕ) (plain : Bytes) → All IsByte plain → All IsByte (replicate n 0 ++ plain)
zeros-bytes zero plain h = h
zeros-bytes (suc n) plain h = (omega arith, zeros-bytes n plain h)

tag-bytes : (key plain : Bytes) → All IsByte plain → All IsByte (tag key ++ plain)
tag-bytes [] plain h = zeros-bytes 16 plain h
tag-bytes (k ∷ key) plain h = (omega arith, zeros-bytes 15 plain h)

pub toy_primitives-IsAead : IsAead toy_primitives
toy_primitives-IsAead = record {
  open-seal = λ key nonce plain. rw (
    take-append 16 (tag key) plain (length-tag key),
    drop-append 16 (tag key) plain (length-tag key),
    str_eq_refl (tag key),
  );
  length-seal = λ key nonce plain. omega (arith, length-append (tag key) plain, length-tag key);
  seal-bytes = λ key nonce plain. tag-bytes key plain;
}

abbrev pub toy_libraries : Libraries
toy_libraries = record {
  zstd = toy_zstd;
  primitives = toy_primitives;
  sha256 = λ bytes. length bytes % 256 ∷ [];
}

-- A keyfile is written as its numbers and its three texts, the first two behind their lengths.
abbrev counted : Bytes → Bytes → Bytes
counted s rest = length s ∷ (s ++ rest)

abbrev toy_marshal : KeyfileData → Bytes
toy_marshal kf =
    kf.params.time
    ∷ kf.params.memory
    ∷ kf.params.threads
    ∷ counted kf.params.salt (counted kf.tmk.nonce kf.tmk.ciphertext)

abbrev toy_keyfile : ℕ → ℕ → ℕ → Bytes → Bytes → Option KeyfileData
toy_keyfile time memory threads salt [] = none
toy_keyfile time memory threads salt (n ∷ rest) = some (record {
  version = pos 1;
  algorithm = codes "argon2id";
  params = record { time = time; memory = memory; threads = threads; salt = salt };
  tmk = record { nonce = take n rest; ciphertext = drop n rest };
})

abbrev toy_unmarshal : Bytes → Option KeyfileData
toy_unmarshal (time ∷ memory ∷ threads ∷ n ∷ rest) =
    toy_keyfile time memory threads (take n rest) (drop n rest)
toy_unmarshal _ = none

abbrev pub toy_keyfiles : KeyfileLibrary
toy_keyfiles = record {
  id_key = λ pass salt time memory threads. some (replicate 32 (length pass));
  marshal = toy_marshal;
  unmarshal = toy_unmarshal;
}

toy_unmarshal-toy_marshal :
    (params : Argon2Params) (salt nonce sealed : Bytes)
    → toy_unmarshal (toy_marshal (keyfile_of params salt nonce sealed))
      ≡ some (keyfile_of params salt nonce sealed)
toy_unmarshal-toy_marshal params salt nonce sealed =
    let s = Base64.encode salt in
    let n = Base64.encode nonce in
    let c = Base64.encode sealed in
    rw (
      take-append (length s) s (counted n c) refl,
      drop-append (length s) s (counted n c) refl,
      take-append (length n) n c refl,
      drop-append (length n) n c refl,
    )

abbrev length_or_0 : Option Bytes → ℕ
length_or_0 none = 0
length_or_0 (some s) = length s

pub toy_keyfiles-IsKeyfileLibrary : IsKeyfileLibrary toy_keyfiles
toy_keyfiles-IsKeyfileLibrary = record {
  id_key-IsKey = λ pass salt time memory threads key e. ap length_or_0 (sym e);
  unmarshal-marshal = toy_unmarshal-toy_marshal;
}
