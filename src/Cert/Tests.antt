-- ===== src/Cert/Tests.antt =====
-- Two certificates, for the theorems about cert.go.
use kcd.Base.{◌≡◌, some, [], ◌∷◌}
use kcd.Base.Int.{pos}
use kcd.Device.{Certificate}
use kcd.Cert.{verification_key}
use kcd.Cert.Laws.{verification_key_comm}

abbrev laptop : Certificate
laptop = record { raw = 1 ∷ []; common_name = "my_laptop"; public_key = some (48 ∷ 1 ∷ []) }

abbrev phone : Certificate
phone = record { raw = 2 ∷ []; common_name = "my-phone"; public_key = some (48 ∷ 2 ∷ []) }

verification_key_comm_example :
    verification_key (λ bs. bs) (some laptop) (some phone) (pos 17)
    ≡ verification_key (λ bs. bs) (some phone) (some laptop) (pos 17)
verification_key_comm_example = verification_key_comm (λ bs. bs) (some laptop) (some phone) (pos 17)
