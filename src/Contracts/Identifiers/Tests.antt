-- ===== src/Contracts/Identifiers/Tests.antt =====
-- An identifier at a concrete time and concrete bytes.
use onyx_ifem.Prelude.{◌≡◌, refl, some}
use onyx_ifem.Json.{Json}
use onyx_ifem.Contracts.Errors.{ok}
use onyx_ifem.Contracts.Checks.{uuid}
use onyx_ifem.Contracts.Identifiers.{uuid_v7, digit_at, uuid_v7-uuid}

made : uuid_v7 1785355200000 255 1 66 3 4 5 6 7 8 200 ≡ "019faf76-6600-7f01-8203-0405060708c8"
unfolding uuid_v7 digit_at
made = refl

uuid_v7-uuid_example :
    uuid (some (Json.text (uuid_v7 1785355200000 255 1 66 3 4 5 6 7 8 200))) "event_id" ≡ ok tt
uuid_v7-uuid_example = uuid_v7-uuid 1785355200000 255 1 66 3 4 5 6 7 8 200 "event_id"
