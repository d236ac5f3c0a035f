-- ===== src/GoText/Fold.antt =====
-- `strings.EqualFold` compares the folded texts.
use wbsv.Common.{◌≡◌, refl, sym, ◌∙◌, ◌↔◌, true, Bytes, bytes_eq_iff}
use wbsv.GoText.{fold, equal_fold}

pub equal_fold_iff : (s t : Bytes) → (equal_fold s t ≡ true) ↔ (fold s ≡ fold t)
unfolding equal_fold
equal_fold_iff s t = bytes_eq_iff (fold s) (fold t)

pub equal_fold_refl : (s : Bytes) → equal_fold s s ≡ true
equal_fold_refl s = (equal_fold_iff s s).1 refl

pub equal_fold_trans :
    (a b c : Bytes) → equal_fold a b ≡ true → equal_fold a c ≡ true → equal_fold b c ≡ true
equal_fold_trans a b c h k =
    (equal_fold_iff b c).1 (sym ((equal_fold_iff a b).0 h) ∙ (equal_fold_iff a c).0 k)
