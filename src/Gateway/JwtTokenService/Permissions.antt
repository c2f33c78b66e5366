-- ===== src/Gateway/JwtTokenService/Permissions.antt =====
-- The list of permissions survives its form as a text with commas.
use titan_x.Prelude.{
  ◌≡◌, ◌≢◌, refl, ap, ◌∙◌, List, [], ◌∷◌, ◌++◌, append_assoc, append-nil, arith, All,
}
use titan_x.Prelude.Text.{Text}
use titan_x.Gateway.JwtTokenService.{join, join_rest, split, push_nonempty}

-- A permission has a character, and no comma.
pub record IsPermission (p : Text) : Type 0 where
  pub nonempty : p ≢ []
  pub plain : All (λ c. c ≢ b',') p

-- A text without a comma goes to the permission that is being read.
split-plain :
    (s rest perm : Text) (ps : List Text)
    → All (λ c. c ≢ b',') s
    → split (s ++ rest) perm ps ≡ split rest (perm ++ s) ps
unfolding split
split-plain [] rest perm ps h = rw (append-nil perm) refl
split-plain (c ∷ s) rest perm ps h =
    ground (arith, split-plain s rest (perm ++ c ∷ []) ps h.1, append_assoc perm (c ∷ []) s, h.0)

push_nonempty-cons : (p : Text) (ps : List Text) → p ≢ [] → push_nonempty p ps ≡ ps ++ p ∷ []
push_nonempty-cons [] ps h = absurd (h refl)
push_nonempty-cons (c ∷ p) ps h = refl

split-join_rest :
    (p : Text) (ps read : List Text)
    → p ≢ []
    → All IsPermission ps
    → split (join_rest ps) p read ≡ read ++ p ∷ ps
unfolding split join_rest
split-join_rest p [] read h k = push_nonempty-cons p read h
split-join_rest p (q ∷ ps) read h k =
    split-plain q (join_rest ps) [] (push_nonempty p read) k.0.plain
    ∙ split-join_rest q ps (push_nonempty p read) k.0.nonempty k.1
    ∙ ap (λ xs. xs ++ q ∷ ps) (push_nonempty-cons p read h)
    ∙ append_assoc read (p ∷ []) (q ∷ ps)

-- Permissions that are not empty and have no comma are read back from the text that they are joined
-- to, in their order.
pub split-join : (ps : List Text) → All IsPermission ps → split (join ps) [] [] ≡ ps
unfolding join split
split-join [] h = refl
split-join (p ∷ ps) h =
    split-plain p (join_rest ps) [] [] h.0.plain ∙ split-join_rest p ps [] h.0.nonempty h.1
