-- ===== src/Bytes/Utf8.antt =====
-- UTF-8 validity of a text cut in two.
use liven.Prelude.{◌≡◌, refl, true, [], ◌∷◌, ◌++◌}
use liven.Bytes.{Bytes, Utf8State, utf8_next, utf8_run, is_utf8}

pub utf8_run-append :
    (s : Utf8State) (xs ys : Bytes) → utf8_run s (xs ++ ys) ≡ utf8_run (utf8_run s xs) ys
unfolding utf8_run
utf8_run-append s [] ys = refl
utf8_run-append s (x ∷ xs) ys = utf8_run-append (utf8_next s x) xs ys

pub is_utf8-nil : is_utf8 [] ≡ true
unfolding is_utf8
is_utf8-nil = refl
