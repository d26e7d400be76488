-- ===== src/Ini/Content.antt =====
-- What an INI text says after the hub has edited it (`_modify_ini_content` of
-- app/routers/aggregate.py).
use webui_hub.Prelude.{
  String, ◌≡◌, refl, ap, sym, subst, ◌∙◌, Bool, true, false, not, ◌&&◌, List, [], ◌∷◌, ◌++◌,
  if◌then◌else◌, All, All-append, Bool-cases, Option-cases, inl, inr,
}
use webui_hub.Ini.{
  Scanner, joined, splitlines, indent, set_on, header_name, key_entry, is_key, close_target,
  replaced, scan, scan_line, fresh, ends_filled, create_section, modify_lines, newline_of,
  modify_ini_content, crlf_in, is_break,
}
use webui_hub.Ini.Settings.{settings, of_key, of_others}
use webui_hub.Ini.Breaks.{
  IsWhole, joined-IsWhole, indent-IsWhole, split-IsWhole, IsNewline, settings-with_end,
}
use webui_hub.Ini.Names.{IsSection, IsKey, ReadsBack-names}
use webui_hub.Ini.Modified.{AsAsked, Modifies-lines}

abbrev Wholes : List String → Type 0
Wholes ls = All IsWhole ls

Wholes-line : (ls : List String) (l : String) → Wholes ls → IsWhole l → Wholes (ls ++ l ∷ [])
Wholes-line ls l h k = All-append IsWhole ls (l ∷ []) h (k, tt)

set_on-IsWhole : (key : String) → IsWhole key → IsWhole (set_on key)
unfolding is_break
set_on-IsWhole key h = joined-IsWhole key "=on" h (refl, (refl, (refl, tt)))

module _ (section key : String) (s_whole : IsWhole section) (k_whole : IsWhole key)
    (enabled : Bool) where
  close-Wholes :
      (s : Scanner) → Wholes s.updated → Wholes (close_target section key enabled s).updated
  unfolding close_target
  close-Wholes s h = elim (Bool-cases (s.in_target && (enabled && not s.key_handled))) [
    | inl e ↦ rw e (Wholes-line s.updated (set_on key) h (set_on-IsWhole key k_whole))
    | inr e ↦ rw e h
  ]

  replaced-Wholes :
      (b : Bool) (s : Scanner) (line : String)
      → Wholes s.updated
      → IsWhole line
      → Wholes (replaced section key b line s).updated
  replaced-Wholes true s line h l =
      Wholes-line s.updated _ h
        (joined-IsWhole (indent line) _ (indent-IsWhole line l) (set_on-IsWhole key k_whole))
  replaced-Wholes false s line h l = h

  line-Wholes :
      (s : Scanner) (line : String)
      → Wholes s.updated
      → IsWhole line
      → Wholes (scan_line section key enabled s line).updated
  unfolding scan_line
  line-Wholes s line h l = elim (Option-cases (header_name line)) [
    | inl e ↦ rw e (elim (Bool-cases (s.in_target && is_key key (key_entry line))) [
      | inl m ↦ rw m (replaced-Wholes enabled s line h l)
      | inr m ↦ rw m (Wholes-line s.updated line h l)
    ])
    | inr (name, e) ↦ rw e (Wholes-line _ line (close-Wholes s h) l)
  ]

  scan-Wholes :
      (ls : List String) (s : Scanner)
      → Wholes s.updated
      → Wholes ls
      → Wholes (scan section key enabled s ls).updated
  unfolding scan
  scan-Wholes [] s h k = h
  scan-Wholes (l ∷ ls) s h k =
      scan-Wholes ls (scan_line section key enabled s l) (line-Wholes s l h k.0) k.1

  blank_end-Wholes :
      (us : List String) → Wholes us → Wholes (if ends_filled us then us ++ "" ∷ [] else us)
  blank_end-Wholes us h = elim (Bool-cases (ends_filled us)) [
    | inl e ↦ rw e (Wholes-line us "" h tt)
    | inr e ↦ rw e h
  ]

  header-IsWhole : IsWhole (joined "[" (joined section "]"))
  unfolding is_break
  header-IsWhole = (refl, joined-IsWhole section "]" s_whole (refl, tt))

  create-Wholes : (s : Scanner) → Wholes s.updated → Wholes (create_section section key enabled s)
  unfolding create_section
  create-Wholes s h = elim (Bool-cases (not s.section_found && enabled)) [
    | inl e ↦ rw e (
        All-append IsWhole _ _ (blank_end-Wholes s.updated h)
          (header-IsWhole, (set_on-IsWhole key k_whole, tt)))
    | inr e ↦ rw e h
  ]

  modify-Wholes : (ls : List String) → Wholes ls → Wholes (modify_lines section key enabled ls)
  unfolding modify_lines
  modify-Wholes ls h = create-Wholes _ (close-Wholes _ (scan-Wholes ls fresh tt h))

newline_of-IsNewline : (content : String) → IsNewline (newline_of content)
newline_of-IsNewline content = elim (Bool-cases (crlf_in false content)) [
  | inl e ↦ rw e (inr refl)
  | inr e ↦ rw e (inl refl)
]

-- Whatever the text is: after a key was set in a section, the text sets it there, and to nothing but
-- "on"; after a key was removed, the text does not set it there. The settings of all other keys and
-- sections, the order and the values included, are those of before. The name of the section is not
-- empty and has no `]` and no line boundary; the key has no `=`, no line boundary and no blank at an
-- end, and does not start with `[`, `#` or `;`.
pub modify_ini_content_lem :
    (content section key : String) (enabled : Bool)
    → IsSection section
    → IsKey key
    → let before = settings (splitlines content) in
      let after = settings (splitlines (modify_ini_content content section key enabled)) in
      AsAsked enabled (of_key section key after)
      × (of_others section key after ≡ of_others section key before)
unfolding modify_ini_content
modify_ini_content_lem content section key enabled s k =
    let lines = splitlines content in
    let m = Modifies-lines section key (ReadsBack-names section key s k) enabled lines in
    let same =
      settings-with_end (newline_of content) (newline_of-IsNewline content) content _
        (modify-Wholes section key s.whole k.whole enabled lines (split-IsWhole false content)) in
    (
      subst (λ ss. AsAsked enabled (of_key section key ss)) (sym same) m.asked,
      ap (of_others section key) same ∙ m.others,
    )
