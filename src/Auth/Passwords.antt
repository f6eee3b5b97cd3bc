-- ===== src/Auth/Passwords.antt =====
-- Password hashes: backend/internal/auth/auth.go. Argon2id, bcrypt, base64 and fmt.Sscanf are libraries, and
-- parameters here. The semaphore around Argon2id delays a hash and does not change it.
pub mod RoundTrip
use go_dark_web_crawler.Common.{
  ℕ, ◌*◌, Bool, true, false, not, ◌||◌, Option, none, some, List, [], ◌∷◌, ◌++◌, ltb, ◌==◌, length,
  if◌then◌else◌,
}
use go_dark_web_crawler.Common.Text.{Bytes, bytes_eq, codes, has_prefix, split_on}

pub record Kdf : Type 0 where
  -- `argon2.IDKey`: password, salt, time, memory, threads and length of the key.
  pub id_key : Bytes → Bytes → ℕ → ℕ → ℕ → ℕ → Bytes
  -- `bcrypt.CompareHashAndPassword(hash, password) == nil`.
  pub bcrypt_matches : Bytes → Bytes → Bool
  -- `base64.RawStdEncoding`.
  pub base64_encode : Bytes → Bytes
  pub base64_decode : Bytes → Option Bytes
  -- `fmt.Sscanf(s, "v=%d", ...)`, and with "m=%d,t=%d,p=%d" into two uint32 and a uint8.
  pub scan_version : Bytes → Option ℕ
  pub scan_params : Bytes → Option (ℕ × (ℕ × ℕ))

-- `argon2.Version`.
abbrev pub argon_version : ℕ
argon_version = 19

abbrev pub argon_time : ℕ
argon_time = 3

abbrev pub argon_memory : ℕ
argon_memory = 64 * 1024

abbrev pub argon_threads : ℕ
argon_threads = 4

abbrev pub argon_key_len : ℕ
argon_key_len = 32

abbrev pub max_password_len : ℕ
max_password_len = 1024

pub data HashError : Type 0 where
  password_too_long no_salt : HashError

pub data Hashed : Type 0 where
  hashed : Bytes → Hashed
  unhashed : HashError → Hashed

-- The PHC string, with the constants above printed.
unfoldable pub phc_string : Kdf → Bytes → Bytes → Bytes
phc_string k salt key =
    codes "$argon2id$v=19$m=65536,t=3,p=4$" ++ (k.base64_encode salt ++ (36 ∷ k.base64_encode key))

-- `HashPassword`, for the salt that crypto/rand gives; none is its error.
unfoldable pub hash_password : Kdf → Bytes → Option Bytes → Hashed
hash_password k password random =
    if ltb max_password_len (length password) then unhashed password_too_long else elim random [
      | none ↦ unhashed no_salt
      | some salt ↦ hashed (
          phc_string k salt
            (k.id_key password salt argon_time argon_memory argon_threads argon_key_len))
    ]

pub record ArgonParams : Type 0 where
  pub memory : ℕ
  pub time : ℕ
  pub threads : ℕ

-- The last checks of `parseArgon2id`: a salt and a digest that decode to something.
unfoldable pub parse_digest :
    Kdf → ArgonParams → Bytes → Bytes → Option (ArgonParams × (Bytes × Bytes))
parse_digest k p salt_text key_text = elim (k.base64_decode salt_text) [
  | none ↦ none
  | some salt ↦ if length salt == 0 then none else elim (k.base64_decode key_text) [
    | none ↦ none
    | some key ↦ if length key == 0 then none else some (p, (salt, key))
  ]
]

-- The checks of the version and of the parameters.
unfoldable pub parse_fields :
    Kdf → Bytes → Bytes → Bytes → Bytes → Bytes → Option (ArgonParams × (Bytes × Bytes))
parse_fields k name version params salt key =
    if not (bytes_eq name (codes "argon2id")) then none else elim (k.scan_version version) [
      | none ↦ none
      | some v ↦ if not (v == argon_version) then none else elim (k.scan_params params) [
        | none ↦ none
        | some (m, (t, p)) ↦
            if m == 0 || t == 0 || p == 0 || ltb (1024 * 1024) m || ltb 16 t
            then none
            else parse_digest k (record { memory = m; time = t; threads = p }) salt key
      ]
    ]

unfoldable pub parse_parts : Kdf → List Bytes → Option (ArgonParams × (Bytes × Bytes))
parse_parts k (first ∷ name ∷ version ∷ params ∷ salt ∷ key ∷ []) =
    parse_fields k name version params salt key
parse_parts k _ = none

-- `parseArgon2id`; every error is none.
unfoldable pub parse_argon2id : Kdf → Bytes → Option (ArgonParams × (Bytes × Bytes))
parse_argon2id k hash = parse_parts k (split_on 36 hash)

-- `checkArgon2id`.
unfoldable pub check_argon2id : Kdf → Bytes → Bytes → Bool
check_argon2id k password hash = elim (parse_argon2id k hash) [
  | none ↦ false
  | some (p, (salt, want)) ↦
      bytes_eq (k.id_key password salt p.time p.memory p.threads (length want)) want
]

-- `CheckPasswordHash`.
unfoldable pub check_password_hash : Kdf → Bytes → Bytes → Bool
check_password_hash k password hash =
    if ltb max_password_len (length password)
    then false
    else (if has_prefix hash (codes "$argon2id$")
        then check_argon2id k password hash
        else (if ltb 72 (length password) then false else k.bcrypt_matches hash password))

-- `NeedsRehash`.
unfoldable pub needs_rehash : Kdf → Bytes → Bool
needs_rehash k hash =
    if not (has_prefix hash (codes "$argon2id$")) then true else elim (parse_argon2id k hash) [
      | none ↦ true
      | some (p, _) ↦
          ltb p.memory argon_memory || ltb p.time argon_time || ltb p.threads argon_threads
    ]
