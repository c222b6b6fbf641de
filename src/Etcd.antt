-- ===== src/Etcd.antt =====
-- pkg/xetcd/xetcd.go: the addresses of the services.
use ccoms.Prelude.{List, [], ◌∷◌, ◌++◌}
use ccoms.Errors.{Result, ok, err, not_found}
use ccoms.Text.{Text, codes, to_lower}

unfoldable pub key_bank_service : Text → Text
key_bank_service coin = codes "bank_service_" ++ to_lower coin

unfoldable pub key_nats_service : Text → Text
key_nats_service coin = codes "nats_bank_" ++ to_lower coin

-- `Get`, on the answer of the store: the values of the key.
unfoldable pub get : Result (List Text) → Result Text
get (err e) = err e
get (ok []) = err not_found
get (ok (v ∷ vs)) = ok v
