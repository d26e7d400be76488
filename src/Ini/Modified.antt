-- ===== src/Ini/Modified.antt =====
-- What an INI text says after a key was set in it or removed from it (`_modify_ini_content` of
-- app/routers/aggregate.py).
use mathlib.Core.List.{append-nil}
use webui_hub.Prelude.{
  String, ◌≡◌, ◌≢◌, refl, ap, sym, subst, ◌∙◌, Bool, true, false, not, ◌&&◌, Option, none, some,
  List, [], ◌∷◌, ◌++◌, if◌then◌else◌, keep-append, eq_refl, All, All-append, Bool-cases, inl, inr,
}
use webui_hub.Ini.{
  Scanner, joined, indent, set_on, close_target, scan, fresh, ends_filled, create_section,
  modify_lines,
}
use webui_hub.Ini.Settings.{
  Setting, open_after, settings_from, settings, sets, set_by, of_key, of_others, settings-append,
}
use webui_hub.Ini.Breaks.{blank_line}
use webui_hub.Ini.Written.{
  ReadsBack, filled, setting_of, setting_of-on, set_by-written, key-written, others-written,
  filled-append, and_right,
}
use webui_hub.Ini.Scan.{Follows, scan-Follows, close-Follows, close-handled, fresh-Follows}

-- What the key is set to: nothing but "on" where it was asked for, else nothing.
abbrev pub AsAsked : Bool → List Setting → Type 0
AsAsked true ss = All (λ s. s.value ≡ "on") ss × (ss ≢ [])
AsAsked false ss = ss ≡ []

ne_nil_of_filled : (ss : List Setting) → filled ss ≡ true → ss ≢ []
ne_nil_of_filled [] h e = cc
ne_nil_of_filled (s ∷ ss) h e = cc

-- The lines say what was asked for, and of other keys what the lines `ls` say.
pub record Modifies (section key : String) (enabled : Bool) (ls out : List String) : Type 0 where
  pub asked : AsAsked enabled (of_key section key (settings out))
  pub others : of_others section key (settings out) ≡ of_others section key (settings ls)

blank_end :
    (us : List String) → settings (if ends_filled us then us ++ "" ∷ [] else us) ≡ settings us
blank_end us = elim (Bool-cases (ends_filled us)) [
  | inl e ↦ rw e (
      settings-append none us ("" ∷ [])
      ∙ ap (λ ss. settings us ++ ss) (blank_line (open_after none us))
      ∙ append-nil _)
  | inr e ↦ rw e refl
]

module _ (section key : String) (r : ReadsBack section key) where
  header_sets : (now : Option String) → set_by now (joined "[" (joined section "]")) ≡ []
  header_sets now = unfold set_by in rw r.header refl

  -- The section that is created holds the key and nothing else.
  settings-created :
      (us : List String)
      → settings (us ++ joined "[" (joined section "]") ∷ set_on key ∷ [])
        ≡ settings us ++ setting_of section key (some section)
  settings-created us =
      settings-append none us _
      ∙ ap (λ ss. settings us ++ ss)
          (unfold settings_from in
            rw (header_sets (open_after none us), r.header)
              (append-nil _ ∙ unfold indent in set_by-written section key r (some section) ""))

  -- Nothing is created.
  Modifies-kept :
      (enabled : Bool) (ls : List String) (s : Scanner)
      → Follows section key enabled ls s
      → (enabled ≡ true → s.key_handled ≡ true)
      → Modifies section key enabled ls s.updated
  Modifies-kept true ls s f handled = record {
    asked = (f.ours.0, ne_nil_of_filled _ (f.ours.1 (handled refl)));
    others = f.others;
  }
  Modifies-kept false ls s f handled = record { asked = f.ours; others = f.others }

  Modifies-created :
      (ls : List String) (s : Scanner)
      → Follows section key true ls s
      → Modifies section key true ls (
          (if ends_filled s.updated then s.updated ++ "" ∷ [] else s.updated)
          ++ joined "[" (joined section "]") ∷ set_on key ∷ [])
  Modifies-created ls s f =
      let says =
        settings-created (if ends_filled s.updated then s.updated ++ "" ∷ [] else s.updated)
        ∙ ap (λ ss. ss ++ setting_of section key (some section)) (blank_end s.updated) in
      let here = eq_refl section in
      let (on, there) = setting_of-on section key (some section) here in
      let mine =
        ap (of_key section key) says
        ∙ keep-append (sets section key) (settings s.updated) _
        ∙ ap (λ ss. of_key section key (settings s.updated) ++ ss)
            (key-written section key r (some section) here) in
      record {
        asked = subst (AsAsked true) (sym mine) (
          All-append (λ s. s.value ≡ "on") _ _ f.ours.0 on,
          ne_nil_of_filled _ (filled-append _ _ there),
        );
        others =
            ap (of_others section key) says
            ∙ keep-append (λ s. not (sets section key s)) (settings s.updated) _
            ∙ ap (λ ss. of_others section key (settings s.updated) ++ ss)
                (others-written section key r (some section) here)
            ∙ append-nil _
            ∙ f.others;
      }

  Modifies-section :
      (enabled : Bool) (ls : List String) (s : Scanner)
      → Follows section key enabled ls s
      → (s.section_found ≡ true → enabled ≡ true → s.key_handled ≡ true)
      → Modifies section key enabled ls (create_section section key enabled s)
  unfolding create_section
  Modifies-section true ls s f handled = elim (Bool-cases s.section_found) [
    | inl e ↦ rw e (Modifies-kept true ls s f (handled e))
    | inr e ↦ rw e (Modifies-created ls s f)
  ]
  Modifies-section false ls s f handled = elim (Bool-cases (not s.section_found && false)) [
    | inl e ↦ cc (and_right (not s.section_found) false e)
    | inr e ↦ rw e (Modifies-kept false ls s f (λ e. cc))
  ]

  pub Modifies-lines :
      (enabled : Bool) (ls : List String)
      → Modifies section key enabled ls (modify_lines section key enabled ls)
  unfolding modify_lines
  Modifies-lines enabled ls =
      let f =
        scan-Follows section key r enabled ls [] fresh (fresh-Follows section key r enabled) in
      Modifies-section enabled ls
        (close_target section key enabled (scan section key enabled fresh ls))
        (close-Follows section key r enabled ls _ f) (close-handled section key r enabled ls _ f)
