-- ===== src/Auth/Access/Decision.antt =====
-- What `access_middleware` decides, against the list of what a token allows.
use live.Prelude.{
  ℕ, ◌≡◌, ◌≢◌, ◌↔◌, ◌⊎◌, inl, inr, refl, sym, ◌∙◌, Bool, true, false, Bytes, if◌then◌else◌, some,
  ◌+◌, ◌<◌, ◌^◌, leb, ok, arith, bytes_eq, bytes_eq_iff, codes, Bool-cases,
}
use mathlib.Core.Path.{subst}
use live.Auth.Access.{
  Access, of_mode, to_mode, Claims, any_id, Method, get, post, delete, other, whip, whep, streams,
  cascade, record_path, may_record, TokenPayload, of_payload, last_arms, method_arms, allows,
}

-- The requests that a token for one stream allows: reading needs `r`, publishing `w`, and managing `x`,
-- and the state of the stream is open to every token for it.
pub data Permitted (c : Claims) : Method → Bytes → Type 0 where
  show_stream : Permitted c get (streams c.id)
  destroy_stream : (of_mode c.mode).x ≡ true → Permitted c delete (streams c.id)
  show_recording : (of_mode c.mode).r ≡ true → Permitted c get (record_path c.id)
  start_recording : (of_mode c.mode).x ≡ true → Permitted c post (record_path c.id)
  stop_recording : (of_mode c.mode).x ≡ true → Permitted c delete (record_path c.id)
  publish_stream : (of_mode c.mode).w ≡ true → Permitted c post (whip c.id)
  subscribe_stream : (of_mode c.mode).r ≡ true → Permitted c post (whep c.id)
  cascade_stream : (of_mode c.mode).x ≡ true → Permitted c post (cascade c.id)

ite_true :
    (b x y : Bool)
    → (if b then x else y) ≡ true
    → ((b ≡ true) × (x ≡ true)) ⊎ ((b ≡ false) × (y ≡ true))
ite_true true x y e = inl (refl, e)
ite_true false x y e = inr (refl, e)

module _ (c : Claims) (one : c.id ≢ any_id) where
  not_any : bytes_eq c.id any_id ≡ false
  not_any = elim (Bool-cases (bytes_eq c.id any_id)) [
    | inl e ↦ absurd (one ((bytes_eq_iff c.id any_id).0 e))
    | inr e ↦ e
  ]

  -- At a path that is the one tested for.
  at_path :
      (method : Method) (path expected : Bytes)
      → bytes_eq path expected ≡ true
      → Permitted c method expected
      → Permitted c method path
  at_path method path expected e k =
      subst (Permitted c method) (sym ((bytes_eq_iff path expected).0 e)) k

  last_arms-none : (method : Method) (path : Bytes) → last_arms c method path ≡ false
  unfolding last_arms
  last_arms-none get path = not_any
  last_arms-none delete path = not_any
  last_arms-none other path = not_any
  last_arms-none post path = elim (Bool-cases (bytes_eq path (codes "/token"))) [
    | inl e ↦ rw (not_any, e) refl
    | inr e ↦ rw (not_any, e) refl
  ]

  nothing_more :
      (method : Method) (path : Bytes) → last_arms c method path ≡ true → Permitted c method path
  nothing_more method path e = let clash : true ≡ false = sym e ∙ last_arms-none method path in cc

  cascade_arm :
      (path : Bytes)
      → (if bytes_eq path (cascade c.id) then (of_mode c.mode).x else last_arms c post path) ≡ true
      → Permitted c post path
  cascade_arm path e =
      elim (ite_true (bytes_eq path (cascade c.id)) (of_mode c.mode).x (last_arms c post path) e) [
        | inl here ↦ at_path post path (cascade c.id) here.0 (cascade_stream here.1)
        | inr rest ↦ nothing_more post path rest.1
      ]

  method_arms-Permitted :
      (method : Method) (path : Bytes) → method_arms c method path ≡ true → Permitted c method path
  unfolding method_arms
  method_arms-Permitted get path e = nothing_more get path e
  method_arms-Permitted other path e = nothing_more other path e
  method_arms-Permitted delete path e =
      elim (ite_true (bytes_eq path (streams c.id)) (of_mode c.mode).x (last_arms c delete path)
        e) [
          | inl here ↦ at_path delete path (streams c.id) here.0 (destroy_stream here.1)
          | inr rest ↦ nothing_more delete path rest.1
        ]
  method_arms-Permitted post path e =
      let on_cascade =
        if bytes_eq path (cascade c.id) then (of_mode c.mode).x else last_arms c post path in
      let on_whep = if bytes_eq path (whep c.id) then (of_mode c.mode).r else on_cascade in
      elim (ite_true (bytes_eq path (whip c.id)) (of_mode c.mode).w on_whep e) [
        | inl here ↦ at_path post path (whip c.id) here.0 (publish_stream here.1)
        | inr behind ↦
            elim (ite_true (bytes_eq path (whep c.id)) (of_mode c.mode).r on_cascade behind.1) [
              | inl here ↦ at_path post path (whep c.id) here.0 (subscribe_stream here.1)
              | inr rest ↦ cascade_arm path rest.1
            ]
      ]

  may_record-Permitted :
      (method : Method)
      → may_record (of_mode c.mode) method ≡ true
      → Permitted c method (record_path c.id)
  unfolding may_record
  may_record-Permitted get e = show_recording e
  may_record-Permitted post e = start_recording e
  may_record-Permitted delete e = stop_recording e
  may_record-Permitted other e = cc

  behind_streams :
      (method : Method) (path : Bytes)
      → (if bytes_eq path (record_path c.id)
          then may_record (of_mode c.mode) method
          else method_arms c method path)
        ≡ true
      → Permitted c method path
  behind_streams method path e =
      elim (ite_true (bytes_eq path (record_path c.id)) (may_record (of_mode c.mode) method)
        (method_arms c method path) e) [
          | inl here ↦
              at_path method path (record_path c.id) here.0 (may_record-Permitted method here.1)
          | inr rest ↦ method_arms-Permitted method path rest.1
        ]

  allows-Permitted :
      (method : Method) (path : Bytes)
      → allows (some c) method path ≡ true
      → Permitted c method path
  unfolding allows
  allows-Permitted get path e =
      elim (ite_true (bytes_eq path (streams c.id)) true
        (if bytes_eq path (record_path c.id)
          then may_record (of_mode c.mode) get
          else method_arms c get path)
        e) [
          | inl here ↦ at_path get path (streams c.id) here.0 show_stream
          | inr rest ↦ behind_streams get path rest.1
        ]
  allows-Permitted post path e = behind_streams post path e
  allows-Permitted delete path e = behind_streams delete path e
  allows-Permitted other path e = behind_streams other path e

same_path : (path : Bytes) → bytes_eq path path ≡ true
same_path path = (bytes_eq_iff path path).1 refl

Permitted-allows :
    (c : Claims) (method : Method) (path : Bytes)
    → Permitted c method path
    → allows (some c) method path ≡ true
unfolding allows method_arms may_record bytes_eq
Permitted-allows c get path show_stream = rw (same_path c.id) refl
Permitted-allows c delete path (destroy_stream e) = rw (same_path c.id) e
Permitted-allows c get path (show_recording e) = rw (same_path c.id) e
Permitted-allows c post path (start_recording e) = rw (same_path c.id) e
Permitted-allows c delete path (stop_recording e) = rw (same_path c.id) e
Permitted-allows c post path (publish_stream e) = rw (same_path c.id) e
Permitted-allows c post path (subscribe_stream e) = rw (same_path c.id) e
Permitted-allows c post path (cascade_stream e) = rw (same_path c.id) e
Permitted-allows c other path e = elim e [ ]

-- A token for one stream, not for all, lets a request through exactly when it is on the list of what
-- the token allows.
pub allows-iff-Permitted :
    (c : Claims) (method : Method) (path : Bytes)
    → c.id ≢ any_id
    → (allows (some c) method path ≡ true) ↔ Permitted c method path
allows-iff-Permitted c method path one =
    (allows-Permitted c one method path, Permitted-allows c method path)

-- A mode is its three rights.
of_mode-to_mode :
    (r w x : Bool) → let a : Access = record { r = r; w = w; x = x } in of_mode (to_mode a) ≡ a
unfolding of_mode to_mode
of_mode-to_mode true true true = refl
of_mode-to_mode true true false = refl
of_mode-to_mode true false true = refl
of_mode-to_mode true false false = refl
of_mode-to_mode false true true = refl
of_mode-to_mode false true false = refl
of_mode-to_mode false false true = refl
of_mode-to_mode false false false = refl

-- A token for all streams, whatever its mode is, lets the request for a new token through, and the
-- new token is made, with the rights that the request asks for, if the time at which it ends is less
-- than 2^63 seconds.
pub allows-of_payload :
    (c : Claims) (now : ℕ) (payload : TokenPayload)
    → c.id ≡ any_id
    → now + payload.duration < 2 ^ 63
    → (allows (some c) post (codes "/api/token") ≡ true)
      × (made : Claims) × (of_payload {E = Unit {0}} now payload ≡ ok made)
      × (of_mode made.mode
          ≡ record { r = payload.subscribe; w = payload.publish; x = payload.admin })
unfolding allows method_arms last_arms bytes_eq of_payload
allows-of_payload c now payload any fits = (
  rw ((bytes_eq_iff c.id any_id).1 any) refl,
  record {
    id = payload.id;
    exp = now + payload.duration;
    mode = to_mode (record { r = payload.subscribe; w = payload.publish; x = payload.admin });
  },
  (let within : leb (2 ^ 63) (now + payload.duration) ≡ false = ground arith in rw within refl),
  of_mode-to_mode payload.subscribe payload.publish payload.admin,
)
