-- ===== src/Gateway/JwtTokenService/Examples.antt =====
-- The properties of tokens on tokens that are written down.
use titan_x.Prelude.{◌≡◌, [], ◌∷◌, arith}
use titan_x.Prelude.Text.{codes}
use titan_x.Gateway.JwtTokenService.{join, split}
use titan_x.Gateway.JwtTokenService.Permissions.{IsPermission, split-join}

read-IsPermission : IsPermission (codes "READ")
read-IsPermission = record {
  nonempty = λ e. cc;
  plain = (omega arith, (omega arith, (omega arith, (omega arith, tt))));
}

trade-IsPermission : IsPermission (codes "TRADE")
trade-IsPermission = record {
  nonempty = λ e. cc;
  plain = (omega arith, (omega arith, (omega arith, (omega arith, (omega arith, tt)))));
}

split-join_example :
    split (join (codes "READ" ∷ codes "TRADE" ∷ [])) [] [] ≡ codes "READ" ∷ codes "TRADE" ∷ []
split-join_example =
    split-join (codes "READ" ∷ codes "TRADE" ∷ []) (read-IsPermission, (trade-IsPermission, tt))
