-- ===== src/Auth/Access.antt =====
-- libs/auth/src, access.rs, claims.rs and lib.rs: the claims of a token, and the requests that they allow;
-- the paths of libs/api/src/path.rs that they are about; and how liveman/src/admin.rs makes claims.
pub mod Decision
mod Tests
use live.Prelude.{
  ℕ, ◌+◌, Bool, true, false, ◌&&◌, ◌||◌, Bytes, List, [], ◌∷◌, ◌++◌, if◌then◌else◌, Option, none,
  some, bit_and, ◌^◌, leb, Outcome, ok, panic, bytes_eq, codes, ◌!=◌,
}

pub record Access : Type 0 where
  pub r : Bool
  pub w : Bool
  pub x : Bool

-- `From<Mode> for Access`; a `Mode` is a `u8`.
unfoldable pub of_mode : ℕ → Access
of_mode mask = record { r = bit_and mask 4 != 0; w = bit_and mask 2 != 0; x = bit_and mask 1 != 0 }

-- `From<Access> for Mode`.
unfoldable pub to_mode : Access → ℕ
to_mode v =
    let r = if v.r then 4 else 0 in
    let w = if v.w then 2 else 0 in let x = if v.x then 1 else 0 in r + w + x

pub record Claims : Type 0 where
  pub id : Bytes
  pub exp : ℕ
  pub mode : ℕ

abbrev pub any_id : Bytes
any_id = codes "*"

-- `http::Method`; the methods that the code does not name are `other`.
pub data Method : Type 0 where
  get : Method
  post : Method
  delete : Method
  other : Method

abbrev pub whip : Bytes → Bytes
whip stream = codes "/whip/" ++ stream

abbrev pub whep : Bytes → Bytes
whep stream = codes "/whep/" ++ stream

abbrev pub streams : Bytes → Bytes
streams stream = codes "/api/streams/" ++ stream

abbrev pub cascade : Bytes → Bytes
cascade stream = codes "/api/cascade/" ++ stream

abbrev pub record_path : Bytes → Bytes
record_path stream = codes "/api/record/" ++ stream

-- The inner match of the arm for recordings.
unfoldable pub may_record : Access → Method → Bool
may_record access post = access.x
may_record access get = access.r
may_record access delete = access.x
may_record access other = false

-- The arms of the match, from the one for `id == ANY_ID` on.
unfoldable pub last_arms : Claims → Method → (path : Bytes) → Bool
last_arms claims post path =
    let access = of_mode claims.mode in
    if bytes_eq claims.id any_id
    then true
    else if bytes_eq path (codes "/token") && bytes_eq claims.id any_id
    then access.r && (access.w && access.x)
    else false
last_arms claims _ path = bytes_eq claims.id any_id

-- The arms for a method behind that for recordings.
unfoldable pub method_arms : Claims → Method → (path : Bytes) → Bool
unfolding last_arms
method_arms claims delete path =
    if bytes_eq path (streams claims.id)
    then (of_mode claims.mode).x
    else last_arms claims delete path
method_arms claims post path =
    let access = of_mode claims.mode in
    if bytes_eq path (whip claims.id)
    then access.w
    else if bytes_eq path (whep claims.id)
    then access.r
    else if bytes_eq path (cascade claims.id)
    then access.x
    else last_arms claims post path
method_arms claims get path = last_arms claims get path
method_arms claims other path = last_arms claims other path

abbrev pub is_get : Method → Bool
is_get get = true
is_get _ = false

-- Whether the request goes on, in `access_middleware`.
unfoldable pub allows : Option Claims → Method → (path : Bytes) → Bool
unfolding method_arms may_record
allows none method path = false
allows (some claims) method path =
    if is_get method && bytes_eq path (streams claims.id)
    then true
    else if bytes_eq path (record_path claims.id)
    then may_record (of_mode claims.mode) method
    else method_arms claims method path

has_token : Bytes → List Bytes → Bool
has_token token [] = false
has_token token (t ∷ tokens) = bytes_eq t token || has_token token tokens

abbrev pub full_claims : Claims
full_claims = record { id = any_id; exp = 0; mode = 7 }

-- `validate_middleware`: the claims that a request gets, where `none` refuses it. `bearer` is
-- `Bearer::decode` with the token that it finds, `decode` that of the jsonwebtoken crate.
unfoldable pub claims_for :
    (tokens : List Bytes) → (decode : Bytes → Option Claims) → Option Bytes → Option Claims
unfolding has_token
claims_for tokens decode none = none
claims_for tokens decode (some token) =
    if has_token token tokens then some full_claims else decode token

unfoldable pub validate :
    {H : Type 0}
    → (bearer : H → Option Bytes) → (decode : Bytes → Option Claims) → (tokens : List Bytes)
    → (auth_header : Option H) → Option Claims
unfolding claims_for
validate bearer decode [] auth_header = some full_claims
validate bearer decode (_ ∷ _) none = none
validate bearer decode (t ∷ tokens) (some auth_header) =
    claims_for (t ∷ tokens) decode (bearer auth_header)

-- `TokenPayload`, and the claims that are made of it `now`, in seconds: adding the duration to the time
-- panics where the seconds do not fit `i64`.
pub record TokenPayload : Type 0 where
  pub id : Bytes
  pub duration : ℕ
  pub subscribe : Bool
  pub publish : Bool
  pub admin : Bool

unfoldable pub of_payload : {E : Type 0} → (now : ℕ) → TokenPayload → Outcome E Claims
unfolding to_mode
of_payload now v =
    if leb (2 ^ 63) (now + v.duration)
    then panic
    else ok (record {
      id = v.id;
      exp = now + v.duration;
      mode = to_mode (record { r = v.subscribe; w = v.publish; x = v.admin });
    })
