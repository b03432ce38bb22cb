-- ===== src/Tests/Cookies.antt =====
-- Cookies.
use simult.Prelude.{◌≡◌, refl, [], ◌∷◌, arith, All, Bytes, codes}
use simult.HttpCookie.{Cookie, read_line, read_cookies}
use simult.HttpCookie.Printed.{Printable}
use simult.HttpCookie.RoundTrip.{print_cookies, read_cookies-print}
use simult.HttpCookie.Valid.{Valid, read_cookies-Valid, read_line-enough}

abbrev session : Cookie
session = record { name = codes "sid"; value = codes "31d4d96e" }

abbrev theme : Cookie
theme = record { name = codes "theme"; value = [] }

session-Printable : Printable session
session-Printable = record { named = refl; tokens = refl; plains = refl }

theme-Printable : Printable theme
theme-Printable = record { named = refl; tokens = refl; plains = refl }

read_cookies-print_example :
    read_cookies (print_cookies session (theme ∷ []) ∷ []) [] ≡ session ∷ theme ∷ []
read_cookies-print_example =
    read_cookies-print session (theme ∷ []) session-Printable (theme-Printable, tt)

-- A line with an empty part and a bad name.
abbrev line : Bytes
line = codes " a=1; ;b b=2;c=3 "

read_cookies-Valid_example : All (Valid (codes "c")) (read_cookies (line ∷ []) (codes "c"))
read_cookies-Valid_example = read_cookies-Valid (line ∷ []) (codes "c")

read_line-enough_example : read_line [] 40 line ≡ read_line [] 20 line
read_line-enough_example = read_line-enough [] 40 20 line (omega arith) (omega arith)
