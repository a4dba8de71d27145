-- ===== src/Tests/Masking.antt =====
-- Masking a text with a telephone number and a name.
use liviq.Base.{◌≡◌, refl, some, List, [], ◌∷◌, Text, codes}
use liviq.Masking.{Kind, ensure_masked, mask}
use liviq.Masking.Gate.{IsClean, ensure_masked-IsClean}
use liviq.Masking.Table.{restored, mask_table-restores}
use liviq.Tests.World.{engine, phone, MaskingCode}

abbrev text : Text
text = codes "Kim 010-1234-5678, Kim"

abbrev names : List Text
names = codes "Kim" ∷ []

masked : (mask engine text names).masked_text ≡ codes "<PII:NAME:1> <PII:PHONE:1>, <PII:NAME:1>"
unfolding MaskingCode
masked = refl

passes : ensure_masked engine text names ≡ some (mask engine text names)
unfolding MaskingCode
passes = refl

ensure_masked-IsClean_example :
    (mask engine text names ≡ mask engine text names)
    × IsClean engine names (mask engine text names).masked_text
ensure_masked-IsClean_example =
    ensure_masked-IsClean engine text names (mask engine text names) passes

mask_table-restores_example :
    (Kind.phone ≡ Kind.phone)
    × (codes "010-1234-5678" ≡ codes "010-1234-5678")
    × (restored (mask engine text names).replacements (codes "<PII:PHONE:1>")
        ≡ some (codes "010-1234-5678"))
unfolding MaskingCode
mask_table-restores_example =
    mask_table-restores engine text names Kind.phone Kind.phone phone phone (codes "<PII:PHONE:1>")
      refl refl
