-- ===== src/Ini/Scan.antt =====
-- The loop over the lines (`_modify_ini_content` of app/routers/aggregate.py).
use mathlib.Core.List.{append-nil, append_assoc}
use webui_hub.Prelude.{
  String, ◌≡◌, refl, ap, sym, subst, ◌∙◌, Bool, true, false, not, ◌&&◌, none, some, List, [], ◌∷◌,
  ◌++◌, arith, Bool-cases, inl, inr, Option-cases,
}
use webui_hub.Ini.{
  Scanner, header_name, key_entry, indent, joined, set_on, is_key, close_target, open_section,
  replaced, kept_line, scan_body, scan_line, scan, fresh,
}
use webui_hub.Ini.Settings.{opened, set_by, open_after, settings_from, settings, of_key, of_others}
use webui_hub.Ini.Written.{
  ReadsBack, is_open, Ours, open-line, key-line, others-line, setting_of, set_by-written,
  key-written, others-written, others-entry, key-other, and_left, and_right, Ours-written,
  open-written,
}

module _ (section key : String) (enabled : Bool) where
  -- The scanner after the lines that it has read.
  pub record Follows (read : List String) (s : Scanner) : Type 0 where
    pub same_open : open_after none s.updated ≡ open_after none read
    pub target : s.in_target ≡ is_open section (open_after none read)
    pub others : of_others section key (settings s.updated) ≡ of_others section key (settings read)
    pub ours : Ours enabled s.key_handled (of_key section key (settings s.updated))
    pub found : (s.section_found && not s.in_target) ≡ true → enabled ≡ true → s.key_handled ≡ true

module _ (section key : String) (r : ReadsBack section key) where
  -- The key is written under its section.
  module _ (read : List String) (s : Scanner) (f : Follows section key true read s)
      (t : s.in_target ≡ true) (line : String) where
    is_target : is_open section (open_after none s.updated) ≡ true
    is_target = ap (is_open section) f.same_open ∙ sym f.target ∙ t

    others-same :
        of_others section key (settings (s.updated ++ joined (indent line) (set_on key) ∷ []))
        ≡ of_others section key (settings s.updated)
    others-same =
        others-line section key s.updated _
        ∙ ap (λ ss. of_others section key (settings s.updated) ++ of_others section key ss)
            (set_by-written section key r (open_after none s.updated) line)
        ∙ ap (λ ss. of_others section key (settings s.updated) ++ ss)
            (others-written section key r _ is_target)
        ∙ append-nil _

    key-more :
        of_key section key (settings (s.updated ++ joined (indent line) (set_on key) ∷ []))
        ≡ of_key section key (settings s.updated)
          ++ setting_of section key (open_after none s.updated)
    key-more =
        key-line section key s.updated _
        ∙ ap (λ ss. of_key section key (settings s.updated) ++ of_key section key ss)
            (set_by-written section key r (open_after none s.updated) line)
        ∙ ap (λ ss. of_key section key (settings s.updated) ++ ss)
            (key-written section key r _ is_target)

    written-Follows : Follows section key true read (record s {
      updated = s.updated ++ joined (indent line) (set_on key) ∷ [];
      key_handled = true;
    })
    written-Follows = record {
      same_open = open-written section key r s.updated line ∙ f.same_open;
      target = f.target;
      others = others-same ∙ f.others;
      ours =
          subst (Ours true true) (sym key-more)
            (Ours-written section key r s.key_handled _ _ is_target f.ours);
      found = λ _ _. refl;
    }

  pub close-Follows :
      (enabled : Bool) (read : List String) (s : Scanner)
      → Follows section key enabled read s
      → Follows section key enabled read (close_target section key enabled s)
  unfolding close_target indent
  close-Follows true read s f = elim (Bool-cases (s.in_target && not s.key_handled)) [
    | inl e ↦ rw e (written-Follows read s f (and_left s.in_target _ e) "")
    | inr e ↦ rw e f
  ]
  close-Follows false read s f = elim (Bool-cases (s.in_target && false)) [
    | inl e ↦ cc (and_right s.in_target false e)
    | inr e ↦ rw e f
  ]

  pub close-handled :
      (enabled : Bool) (read : List String) (s : Scanner)
      → Follows section key enabled read s
      → (close_target section key enabled s).section_found ≡ true
      → enabled ≡ true
      → (close_target section key enabled s).key_handled ≡ true
  unfolding close_target
  close-handled enabled read s f found on = ground (arith, f.found)

  module _ (enabled : Bool) (read : List String) (s : Scanner)
      (f : Follows section key enabled read s) (line : String) where
    open_kept : open_after none (s.updated ++ line ∷ []) ≡ open_after none (read ++ line ∷ [])
    open_kept =
        open-line s.updated line
        ∙ ap (opened (header_name line)) f.same_open
        ∙ sym (open-line read line)

    others_kept :
        of_others section key (settings (s.updated ++ line ∷ []))
        ≡ of_others section key (settings (read ++ line ∷ []))
    others_kept =
        others-line section key s.updated line
        ∙ ap (λ ss. ss ++ of_others section key (set_by (open_after none s.updated) line)) f.others
        ∙ ap (λ o. of_others section key (settings read) ++ of_others section key (set_by o line))
            f.same_open
        ∙ sym (others-line section key read line)

    key_kept :
        of_key section key (set_by (open_after none s.updated) line) ≡ []
        → of_key section key (settings (s.updated ++ line ∷ []))
          ≡ of_key section key (settings s.updated)
    key_kept e =
        key-line section key s.updated line
        ∙ ap (λ ss. of_key section key (settings s.updated) ++ ss) e
        ∙ append-nil _

    opened-Follows :
        (name : String)
        → header_name line ≡ some name
        → (s.section_found ≡ true → enabled ≡ true → s.key_handled ≡ true)
        → Follows section key enabled
            (read ++ line ∷ [])
            (open_section section key enabled line name s)
    opened-Follows name h closed = record {
      same_open = open_kept;
      target = sym (
          ap (is_open section) (open-line read line ∙ ap (λ o. opened o (open_after none read)) h));
      others = others_kept;
      ours =
          subst (Ours enabled s.key_handled) (sym (key_kept (unfold set_by in rw h refl))) f.ours;
      found = ground (arith, closed);
    }

    kept-Follows :
        header_name line ≡ none
        → (s.in_target && is_key key (key_entry line)) ≡ false
        → Follows section key enabled (read ++ line ∷ []) (kept_line section key enabled line s)
    kept-Follows h e = record {
      same_open = open_kept;
      target =
          f.target
          ∙ sym (
              ap (is_open section)
                (open-line read line ∙ ap (λ o. opened o (open_after none read)) h));
      others = others_kept;
      ours =
          subst (Ours enabled s.key_handled)
            (sym (
              key_kept (
                unfold set_by in
                rw h (
                  key-other section key _ (key_entry line) (
                    ap (λ b. b && is_key key (key_entry line))
                      (ap (is_open section) f.same_open ∙ sym f.target)
                    ∙ e)))))
            f.ours;
      found = f.found;
    }

    -- The loop has read a line that it takes for an entry of the key, and has kept nothing of it.
    dropped-Follows :
        header_name line ≡ none
        → (s.in_target && is_key key (key_entry line)) ≡ true
        → Follows section key enabled (read ++ line ∷ []) s
    dropped-Follows h e = record {
      same_open = f.same_open ∙ sym open_read;
      target = f.target ∙ sym (ap (is_open section) open_read);
      others =
          f.others
          ∙ sym (
              others-line section key read line
              ∙ ap (λ ss. of_others section key (settings read) ++ ss) dropped
              ∙ append-nil _);
      ours = f.ours;
      found = f.found;
    }
      where
        open_read : open_after none (read ++ line ∷ []) ≡ open_after none read
        open_read = open-line read line ∙ ap (λ o. opened o (open_after none read)) h

        dropped : of_others section key (set_by (open_after none read) line) ≡ []
        dropped =
            unfold set_by in
            rw h (
              others-entry section key _ (key_entry line) (sym f.target ∙ and_left s.in_target _ e)
                (and_right s.in_target _ e))

  replaced-Follows :
      (enabled : Bool) (read : List String) (s : Scanner) (line : String)
      → Follows section key enabled read s
      → s.in_target ≡ true
      → Follows section key enabled read (replaced section key enabled line s)
  replaced-Follows true read s line f t = written-Follows read s f t line
  replaced-Follows false read s line f t = record {
    same_open = f.same_open;
    target = f.target;
    others = f.others;
    ours = f.ours;
    found = λ _ e. cc;
  }

  body-Follows :
      (enabled : Bool) (read : List String) (s : Scanner) (line : String)
      → Follows section key enabled read s
      → header_name line ≡ none
      → Follows section key enabled (read ++ line ∷ []) (scan_body section key enabled line s)
  body-Follows enabled read s line f h =
      elim (Bool-cases (s.in_target && is_key key (key_entry line))) [
        | inl e ↦ rw e (
            replaced-Follows enabled (read ++ line ∷ []) s line
              (dropped-Follows enabled read s f line h e) (and_left s.in_target _ e))
        | inr e ↦ rw e (kept-Follows enabled read s f line h e)
      ]

  line-Follows :
      (enabled : Bool) (read : List String) (s : Scanner) (line : String)
      → Follows section key enabled read s
      → Follows section key enabled (read ++ line ∷ []) (scan_line section key enabled s line)
  unfolding scan_line
  line-Follows enabled read s line f = elim (Option-cases (header_name line)) [
    | inl h ↦ rw h (body-Follows enabled read s line f h)
    | inr (name, h) ↦ rw h (
        opened-Follows enabled read (close_target section key enabled s)
          (close-Follows enabled read s f) line name h (close-handled enabled read s f))
  ]

  pub scan-Follows :
      (enabled : Bool) (ls read : List String) (s : Scanner)
      → Follows section key enabled read s
      → Follows section key enabled (read ++ ls) (scan section key enabled s ls)
  unfolding scan
  scan-Follows enabled [] read s f = rw append-nil f
  scan-Follows enabled (l ∷ ls) read s f =
      subst
        (λ xs.
          Follows section key enabled xs
            (scan section key enabled (scan_line section key enabled s l) ls))
        (append_assoc read (l ∷ []) ls)
        (scan-Follows enabled ls (read ++ l ∷ []) (scan_line section key enabled s l)
          (line-Follows enabled read s l f))

  pub fresh-Follows : (enabled : Bool) → Follows section key enabled [] fresh
  unfolding open_after settings_from
  fresh-Follows true = record {
    same_open = refl;
    target = refl;
    others = refl;
    ours = (tt, λ e. cc);
    found = λ e _. cc;
  }
  fresh-Follows false = record {
    same_open = refl;
    target = refl;
    others = refl;
    ours = refl;
    found = λ e _. cc;
  }
