-- ===== src/Compliance/AreaCodes.antt =====
-- lib/compliance/area-codes.ts: the time zone of a US phone number by its area code.
use signalstack_sms.Prelude.{
  ℕ, ◌+◌, ◌*◌, ◌-◌, String, ◌&&◌, ◌||◌, Option, none, some, List, [], ◌∷◌, ◌++◌, map, ◌==◌,
  if◌then◌else◌, or_option, or_else, all, codes, ◌≡◌, refl,
}
use signalstack_sms.Text.{Text, is_digit}

abbrev in_zone : String → List ℕ → List (ℕ × String)
in_zone zone areas = map (λ a. (a, zone)) areas

-- `US_AREA_CODE_TIMEZONES`, its three-digit keys as numbers.
us_area_code_timezones : List (ℕ × String)
us_area_code_timezones =
    in_zone "America/New_York" (
      201 ∷ 207 ∷ 212 ∷ 215 ∷ 216 ∷ 223 ∷ 239 ∷ 267 ∷ 305 ∷ 313 ∷ 315 ∷ 321 ∷ 332 ∷ 347 ∷ 352 ∷ 386
      ∷ 401 ∷ 404 ∷ 407 ∷ 413 ∷ 470 ∷ 484 ∷ 508 ∷ 516 ∷ 518 ∷ 561 ∷ 570 ∷ 585 ∷ 607 ∷ 617 ∷ 631
      ∷ 646 ∷ 678 ∷ 704 ∷ 716 ∷ 718 ∷ 727 ∷ 754 ∷ 772 ∷ 781 ∷ 786 ∷ 813 ∷ 814 ∷ 838 ∷ 845 ∷ 856
      ∷ 857 ∷ 860 ∷ 862 ∷ 904 ∷ 914 ∷ 917 ∷ 929 ∷ 941 ∷ 954 ∷ 978 ∷ [])
    ++ (in_zone "America/Chicago" (
          205 ∷ 214 ∷ 217 ∷ 224 ∷ 225 ∷ 228 ∷ 251 ∷ 256 ∷ 312 ∷ 318 ∷ 319 ∷ 334 ∷ 409 ∷ 469 ∷ 504
          ∷ 512 ∷ 515 ∷ 601 ∷ 612 ∷ 615 ∷ 629 ∷ 630 ∷ 636 ∷ 682 ∷ 708 ∷ 713 ∷ 737 ∷ 769 ∷ 773 ∷ 815
          ∷ 817 ∷ 832 ∷ 847 ∷ 872 ∷ 901 ∷ 903 ∷ 936 ∷ 940 ∷ 972 ∷ 979 ∷ [])
        ++ (in_zone "America/Denver" (303 ∷ 307 ∷ 385 ∷ 435 ∷ 505 ∷ 575 ∷ 720 ∷ 801 ∷ 970 ∷ [])
            ++ (in_zone "America/Phoenix" (480 ∷ 602 ∷ 623 ∷ [])
                ++ (in_zone "America/Los_Angeles" (
                    206 ∷ 209 ∷ 213 ∷ 253 ∷ 310 ∷ 323 ∷ 360 ∷ 415 ∷ 424 ∷ 425 ∷ 503 ∷ 509 ∷ 510
                    ∷ 530 ∷ 559 ∷ 562 ∷ 619 ∷ 626 ∷ 628 ∷ 650 ∷ 661 ∷ 707 ∷ 714 ∷ 760 ∷ 805 ∷ 818
                    ∷ 831 ∷ 858 ∷ 909 ∷ 916 ∷ 925 ∷ 949 ∷ 951 ∷ 971 ∷ [])))))

lookup_zone : ℕ → List (ℕ × String) → Option String
lookup_zone area [] = none
lookup_zone area ((a, zone) ∷ rows) = if a == area then some zone else lookup_zone area rows

-- `phone.replace(/[^\d+]/g, "")`
sanitize : Text → Text
unfolding is_digit
sanitize [] = []
sanitize (c ∷ s) = if is_digit c || c == b'+' then c ∷ sanitize s else sanitize s

-- `^(\d{3})\d{7}$`: the area code of ten digits.
ten_digits : Text → Option ℕ
unfolding is_digit
ten_digits (a ∷ b ∷ c ∷ d ∷ e ∷ f ∷ g ∷ h ∷ i ∷ j ∷ []) =
    if all is_digit (a ∷ b ∷ c ∷ d ∷ e ∷ f ∷ g ∷ h ∷ i ∷ j ∷ [])
    then some ((a - b'0') * 100 + (b - b'0') * 10 + (c - b'0'))
    else none
ten_digits _ = none

-- `^\+1(\d{3})\d{7}$`
e164_us : Text → Option ℕ
unfolding ten_digits
e164_us (p ∷ o ∷ s) = if p == b'+' && o == b'1' then ten_digits s else none
e164_us _ = none

zone_of : Option ℕ → Option String
unfolding lookup_zone us_area_code_timezones
zone_of none = none
zone_of (some area) = lookup_zone area us_area_code_timezones

unfoldable pub resolve_timezone_from_phone : Text → String → String
unfolding sanitize e164_us zone_of
resolve_timezone_from_phone phone fallback =
    let sanitized = sanitize phone in
    or_else (or_option (zone_of (e164_us sanitized)) (zone_of (ten_digits sanitized))) fallback

mapped_area : resolve_timezone_from_phone (codes "+1 (714) 555-0100") "UTC" ≡ "America/Los_Angeles"
unfolding resolve_timezone_from_phone
mapped_area = refl
