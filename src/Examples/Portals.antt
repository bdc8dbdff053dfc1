-- ===== src/Examples/Portals.antt =====
-- The portal: a form in two chunks.
use veetee_vuqb.Base.{◌≡◌, refl, true, [], ◌∷◌, length, arith}
use veetee_vuqb.Base.Text.{codes}
use veetee_vuqb.Provisioning.{SaveAnswer, save_handler}
use veetee_vuqb.Provisioning.Forms.{encode, is_unescaped, is_unescaped-IsPlain}
use veetee_vuqb.Provisioning.Accepting.{form, save_handler-form}

save_handler-form_example :
    save_handler
      (length (form is_unescaped (codes "h-n") (codes "%")))
      (codes "ssi" ∷ codes "d=h-n&password=%25" ∷ [])
      true
    ≡ SaveAnswer.accepted (codes "h-n") (codes "%")
unfolding encode
save_handler-form_example =
    save_handler-form is_unescaped (codes "h-n") (codes "%")
      (codes "ssi" ∷ codes "d=h-n&password=%25" ∷ []) is_unescaped-IsPlain (omega arith)
      ((omega arith, omega arith), tt) (omega arith, omega arith) (omega arith) refl
      (omega arith, (omega arith, tt)) (omega arith)
