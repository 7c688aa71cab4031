-- ===== src/Resources/Device/Laws.antt =====
-- What `device_read` makes of the lines of /etc/os-release.
use agent_resources.Prelude.{
  ℕ, ◌<◌, ◌≡◌, refl, arith, some, List, [], ◌∷◌, ◌++◌, All, Bool, true, false, done, ltb, length,
  ◌==◌, ◌∙◌, pos,
}
use agent_resources.Text.{codes, starts_with, overlay, after-append, before-append}
use agent_resources.Resources.{err_ok}
use agent_resources.Resources.Fs.{uptime_text}
use agent_resources.Resources.Fs.Laws.{device_up_time-ok}
use agent_resources.Resources.Device.{Device, is_quote, copy_quoted, os_line, os_lines, device_read}

-- The line that names the system, in quotation marks.
abbrev pub name_line : List ℕ → List ℕ → List ℕ
name_line name rest = codes "NAME=" ++ 0x22 ∷ (name ++ 0x22 ∷ rest)

abbrev pub Other : List ℕ → Type 0
Other line = starts_with (codes "NAME=") line ≡ false

-- A name that can stand there: no quotation mark and no NUL.
abbrev pub IsQuotable : List ℕ → Type 0
IsQuotable name = All (λ x. is_quote x ≡ false) name × All (λ x. (x == 0) ≡ false) name

os_lines-Other :
    (lines : List (List ℕ)) (array : List ℕ) → All Other lines → os_lines lines array ≡ array
unfolding os_lines os_line
os_lines-Other [] array h = refl
os_lines-Other (line ∷ lines) array h = rw h.0 (os_lines-Other lines array h.1)

os_line-name :
    (name rest array : List ℕ)
    → IsQuotable name
    → length name < 256
    → os_line (name_line name rest) array ≡ overlay (name ++ 0 ∷ []) array
unfolding os_line copy_quoted starts_with
os_line-name name rest array q h =
    rw
      (
        after-append 0x22 (codes "NAME=") (name ++ 0x22 ∷ rest) before_quote,
        copy_quoted,
        after-append 0x22 name rest q.0,
        before-append is_quote name 0x22 rest q.0 refl,
        fits,
      )
      refl
  where
    before_quote : All (λ x. (x == 0x22) ≡ false) (codes "NAME=")
    before_quote = (refl, (refl, (refl, (refl, (refl, tt)))))

    fits : ltb (length name) 256 ≡ true
    fits = ground arith

os_lines-name :
    (early late : List (List ℕ)) (name rest array : List ℕ)
    → All Other early
    → All Other late
    → IsQuotable name
    → length name < 256
    → os_lines (early ++ name_line name rest ∷ late) array ≡ overlay (name ++ 0 ∷ []) array
unfolding os_lines
os_lines-name [] late name rest array e l q h =
    os_lines-Other late (os_line (name_line name rest) array) l ∙ os_line-name name rest array q h
os_lines-name (line ∷ early) late name rest array e l q h =
    rw (os_line-same line array e.0, os_lines) (os_lines-name early late name rest array e.1 l q h)
  where
    os_line-same : (line array : List ℕ) → Other line → os_line line array ≡ array
    os_line-same line array o = unfold os_line in (rw o refl)

-- The name is put into the array, with a NUL behind it.
pub device_read-name :
    (asserts : Bool) (early late : List (List ℕ)) (name rest : List ℕ) (s : ℕ) (d : Device)
    → All Other early
    → All Other late
    → IsQuotable name
    → length name < 256
    → device_read asserts
        (some d)
        (some (early ++ name_line name rest ∷ late))
        (some (some (pos s)))
      ≡ done (
        err_ok,
        some (record d {
          os_version = overlay (name ++ 0 ∷ []) d.os_version;
          uptime = uptime_text (pos s);
        }),
      )
unfolding device_read
device_read-name asserts early late name rest s d e l q h =
    rw
      (
        device_up_time-ok asserts d.uptime (pos s),
        os_lines-name early late name rest d.os_version e l q h,
      )
      refl
