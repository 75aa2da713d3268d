-- ===== src/Auth/Access/Tests.antt =====
-- Inputs for the theorems on access.
use live.Prelude.{
  ◌≡◌, ◌≢◌, ◌↔◌, refl, true, false, Bytes, [], ◌∷◌, none, some, codes, bytes_eq, ok, arith,
}
use live.Auth.Access.{
  Claims, any_id, post, get, TokenPayload, allows, of_mode, of_payload, validate, full_claims,
}
use live.Auth.Access.Decision.{Permitted, allows-iff-Permitted, allows-of_payload}

-- A token that may watch one stream, and one that may watch all.
abbrev viewer : Claims
viewer = record { id = codes "cam"; exp = 100; mode = 4 }

abbrev any_viewer : Claims
any_viewer = record { id = any_id; exp = 100; mode = 4 }

cam_ne : codes "cam" ≢ any_id
cam_ne e = cc

allows-iff-Permitted_example :
    (allows (some viewer) post (codes "/whep/cam") ≡ true)
    ↔ Permitted viewer post (codes "/whep/cam")
allows-iff-Permitted_example = allows-iff-Permitted viewer post (codes "/whep/cam") cam_ne

abbrev full_access : TokenPayload
full_access = record { id = any_id; duration = 60; subscribe = true; publish = true; admin = true }

allows-of_payload_example :
    (allows (some any_viewer) post (codes "/api/token") ≡ true)
    × (made : Claims) × (of_payload {E = Unit {0}} 5 full_access ≡ ok made)
    × (of_mode made.mode ≡ record { r = true; w = true; x = true })
allows-of_payload_example = allows-of_payload any_viewer 5 full_access refl (omega arith)

access_tests :
    (allows (some viewer) post (codes "/whep/cam") ≡ true)
    × (allows (some viewer) post (codes "/whip/cam") ≡ false)
    × (allows (some viewer) post (codes "/whep/other") ≡ false)
    × (allows
          (validate {H = Bytes} (λ h. some h) (λ _. none) (codes "t" ∷ []) (some (codes "u")))
          get
          (codes "/api/streams/cam")
        ≡ false)
    × (validate {H = Bytes} (λ h. some h) (λ _. none) (codes "t" ∷ []) (some (codes "t"))
        ≡ some full_claims)
unfolding allows validate bytes_eq of_mode
access_tests = (refl, refl, refl, refl, refl)
