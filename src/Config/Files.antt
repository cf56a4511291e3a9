-- ===== src/Config/Files.antt =====
-- Config::LoadFromConfDir of server/library/config/Config.cpp. What the directory has is an argument:
-- each file with its path, its time of modification, and its document, or none where yaml-cpp throws.
use uiconnect.Base.{
  ℕ, ◌≡◌, refl, ap, ◌∙◌, Bool, true, false, not, ◌&&◌, Option, none, some, List, [], ◌∷◌, ◌==◌,
  ==_refl, Bool-cases, inl, inr, if-elim, if◌then◌else◌,
}
use uiconnect.Base.Text.{equal_text}
use uiconnect.Base.Assoc.{find, put, find-put, find-put_other}
use uiconnect.Config.{Node, ConfigItemMap, load_from_yaml}

pub record ConfigFile : Type 0 where
  pub path : List ℕ
  pub mtime : ℕ
  pub document : Option Node

abbrev is_time : ℕ → Option ℕ → Bool
is_time mtime none = false
is_time mtime (some t) = t == mtime

-- the file is in s_conf_file_mod_time with this time
unfoldable pub is_unchanged : ConfigFile → List (List ℕ × ℕ) → Bool
unfolding find
is_unchanged file times = is_time file.mtime (find file.path times)

module _ {V : Type 0} (equal : V → V → Bool) (convert : ℕ → List ℕ → Option V)
    (emit : Node → List ℕ) where
  abbrev pub load_document : Option Node → ConfigItemMap V → ConfigItemMap V
  unfolding load_from_yaml
  load_document none m = m
  load_document (some root) m = load_from_yaml equal convert emit root m

  -- a round of the loop, on s_conf_file_mod_time and the items
  unfoldable pub load_file :
      Bool → ConfigFile → List (List ℕ × ℕ) × ConfigItemMap V → List (List ℕ × ℕ) × ConfigItemMap V
  unfolding load_document is_unchanged put
  load_file force file s =
      if not force && is_unchanged file s.0
      then s
      else (put file.path file.mtime s.0, load_document file.document s.1)

  -- Config::LoadFromConfDir
  unfoldable pub load_from_conf_dir :
      Bool
      → List ConfigFile
      → List (List ℕ × ℕ) × ConfigItemMap V
      → List (List ℕ × ℕ) × ConfigItemMap V
  unfolding load_file
  load_from_conf_dir force [] s = s
  load_from_conf_dir force (file ∷ rest) s = load_from_conf_dir force rest (load_file force file s)

  -- No file of the list has the path.
  abbrev pub IsApart : List ℕ → List ConfigFile → Type 0
  IsApart path [] = Unit {0}
  IsApart path (file ∷ rest) = (equal_text file.path path ≡ false) × IsApart path rest

  abbrev pub IsDistinct : List ConfigFile → Type 0
  IsDistinct [] = Unit {0}
  IsDistinct (file ∷ rest) = IsApart file.path rest × IsDistinct rest

  find-load_file :
      (force : Bool) (file : ConfigFile) (path : List ℕ) (s : List (List ℕ × ℕ) × ConfigItemMap V)
      → equal_text file.path path ≡ false
      → find path (load_file force file s).0 ≡ find path s.0
  unfolding load_file
  find-load_file force file path s h =
      if-elim (λ (r : List (List ℕ × ℕ) × ConfigItemMap V). find path r.0 ≡ find path s.0)
        (not force && is_unchanged file s.0) (λ c. refl)
        (λ c. find-put_other path file.path file.mtime s.0 h)

  find-load_from_conf_dir :
      (force : Bool) (files : List ConfigFile) (path : List ℕ)
      (s : List (List ℕ × ℕ) × ConfigItemMap V)
      → IsApart path files
      → find path (load_from_conf_dir force files s).0 ≡ find path s.0
  unfolding load_from_conf_dir
  find-load_from_conf_dir force [] path s a = refl
  find-load_from_conf_dir force (file ∷ rest) path s (h, hs) =
      find-load_from_conf_dir force rest path (load_file force file s) hs
      ∙ find-load_file force file path s h

  abbrev AllUnchanged : List ConfigFile → List (List ℕ × ℕ) → Type 0
  AllUnchanged [] times = Unit {0}
  AllUnchanged (file ∷ rest) times = (is_unchanged file times ≡ true) × AllUnchanged rest times

  load_file-is_unchanged :
      (force : Bool) (file : ConfigFile) (s : List (List ℕ × ℕ) × ConfigItemMap V)
      → is_unchanged file (load_file force file s).0 ≡ true
  unfolding load_file is_unchanged
  load_file-is_unchanged force file s =
      (elim (Bool-cases (not force && is_time file.mtime (find file.path s.0))) [
        | inl c ↦ rw c (second (not force) (is_time file.mtime (find file.path s.0)) c)
        | inr c ↦ rw c (rw (find-put file.path file.mtime s.0) (==_refl file.mtime))
      ])
    where
      second : (a b : Bool) → a && b ≡ true → b ≡ true
      second true b e = e
      second false b e = cc

  load_from_conf_dir-AllUnchanged :
      (force : Bool) (files : List ConfigFile) (s : List (List ℕ × ℕ) × ConfigItemMap V)
      → IsDistinct files
      → AllUnchanged files (load_from_conf_dir force files s).0
  unfolding load_from_conf_dir is_unchanged
  load_from_conf_dir-AllUnchanged force [] s d = tt
  load_from_conf_dir-AllUnchanged force (file ∷ rest) s (a, d) =
      let s' = load_file force file s in
      (
        ap (is_time file.mtime) (find-load_from_conf_dir force rest file.path s' a)
            ∙ load_file-is_unchanged force file s,
        load_from_conf_dir-AllUnchanged force rest s' d,
      )

  skip_all :
      (files : List ConfigFile) (s : List (List ℕ × ℕ) × ConfigItemMap V)
      → AllUnchanged files s.0
      → load_from_conf_dir false files s ≡ s
  unfolding load_from_conf_dir load_file
  skip_all [] s u = refl
  skip_all (file ∷ rest) s (u, us) = rw u (skip_all rest s us)

  -- Once the files of a directory are loaded, forced or not, loading them again does nothing as long
  -- as none has another time of modification, whether or not its document could be read.
  pub load_from_conf_dir_again :
      (force : Bool) (files : List ConfigFile) (s : List (List ℕ × ℕ) × ConfigItemMap V)
      → IsDistinct files
      → load_from_conf_dir false files (load_from_conf_dir force files s)
        ≡ load_from_conf_dir force files s
  load_from_conf_dir_again force files s d =
      skip_all files (load_from_conf_dir force files s)
        (load_from_conf_dir-AllUnchanged force files s d)
