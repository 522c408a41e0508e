-- ===== src/Examples/Newest.antt =====
-- Lists of messages.
use quiteline.Base.{refl, inl, inr, codes, ◌≡◌, some}
use quiteline.Base.{str_eq}
use quiteline.ById.{find}
use quiteline.ById.Best.{IsNewest}
use quiteline.Wire.{EncryptedMessage}
use quiteline.Messages.Version.{message_version}
use quiteline.Messages.Merge.{candidates, encrypted_messages, paged_messages}
use quiteline.Messages.Newest.{encrypted_messages-IsNewest}
use quiteline.Examples.Data.{clock, sources}

encrypted_messages-IsNewest_example :
    (w : EncryptedMessage) × (find (λ m. m.id) (codes "m1") (encrypted_messages clock sources)
      ≡ some w)
    × IsNewest (λ m. m.id) (message_version clock) (codes "m1") w (candidates sources)
unfolding candidates paged_messages str_eq
encrypted_messages-IsNewest_example =
    encrypted_messages-IsNewest clock sources (codes "m1") ((tt, tt), ((tt, tt), ((tt, tt), tt)))
      (inr (inl refl))
