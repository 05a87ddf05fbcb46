-- ===== src/Daemon/State/File/Laws.antt =====
-- internal/daemon/state.go: a save replaces the state file or leaves it, what is saved is loaded, and
-- a migration loses nothing.
use text.Mathlib.TextPositions.{len-append}
use Prim.Native.String.{len, ◌++◌ as appended}
use rescale_interlink.Common.{
  ℕ, String, true, false, not, Option, none, some, ◌≡◌, ◌≢◌, ◌⊎◌, inl, inr, ap, sym, ◌∙◌, refl,
  arith, ◌===◌, ===_iff, if◌then◌else◌, Bool-cases, Option-cases, ◌&&◌, ◌||◌,
}
use rescale_interlink.Daemon.State.{State, new_state}
use rescale_interlink.Daemon.State.File.{
  contents, present, is_present, Os, SaveError, temporary, save_text, save, copy_over,
  migrate_state_file, load_file, load,
}

-- What the code relies on: what each operation does to the files that can be read.
pub record OsLaws (D : Type 0) ⦃os : Os D⦄ : Type 0 where
  -- A path is not its directory, nor one of those above it.
  pub mkdir_below :
      (d : D) (q : String) → os.read_file (os.mkdir_all d (os.dir q)).0 q ≡ os.read_file d q
  pub mkdir_keeps :
      (d : D) (p q text : String)
      → os.read_file d q ≡ contents text
      → os.read_file (os.mkdir_all d p).0 q ≡ contents text
  pub write_reads :
      (d : D) (p c : String)
      → (os.write_file d p c).1 ≡ true
      → os.read_file (os.write_file d p c).0 p ≡ contents c
  pub write_elsewhere :
      (d : D) (p c q : String) → p ≢ q → os.read_file (os.write_file d p c).0 q ≡ os.read_file d q
  pub rename_reads :
      (d : D) (p q : String)
      → (os.rename d p q).1 ≡ true
      → os.read_file (os.rename d p q).0 q ≡ os.read_file d p
  pub rename_fails :
      (d : D) (p q r : String)
      → (os.rename d p q).1 ≡ false
      → os.read_file (os.rename d p q).0 r ≡ os.read_file d r
  pub remove_elsewhere :
      (d : D) (p q : String) → p ≢ q → os.read_file (os.remove d p) q ≡ os.read_file d q
  pub stat_reads : (d : D) (p c : String) → os.read_file d p ≡ contents c → os.stat d p ≡ present

temporary_ne : (path : String) → temporary path ≢ path
temporary_ne path e =
    let longer : len (appended path ".tmp") ≡ len path = ap len e in
    absurd (omega (arith, len-append path ".tmp", longer))

-- A save that returns no error leaves the text in the file, and one that fails the file as it was.
abbrev pub Saves :
    {D : Type 0} → ⦃os : Os D⦄ → D → String → Option String → D × Option SaveError → Type 0
Saves ⦃os⦄ d path text result =
    ((result.1 ≡ none)
      × ((written : String) × (text ≡ some written)
          × (os.read_file result.0 path ≡ contents written)))
    ⊎ ((result.1 ≢ none) × (os.read_file result.0 path ≡ os.read_file d path))

module _ {D : Type 0} ⦃os : Os D⦄ (laws : OsLaws D) where
  save_text-Saves : (d : D) (path text : String) → Saves d path (some text) (save_text d path text)
  unfolding save_text
  save_text-Saves d path text =
      let tmp = temporary path in
      let differs = temporary_ne path in
      let written = os.write_file d tmp text in
      let kept = laws.write_elsewhere d tmp text path differs in
      elim (Bool-cases written.1) [
        | inr e ↦ rw (save_text, e) (inr (ground arith, kept))
        | inl e ↦ elim (Bool-cases (os.rename written.0 tmp path).1) [
          | inl r ↦
              rw (save_text, e, r)
                (inl (
                  refl,
                  (
                    text,
                    refl,
                    laws.rename_reads written.0 tmp path r ∙ laws.write_reads d tmp text e,
                  ),
                ))
          | inr r ↦
              let undone = laws.rename_fails written.0 tmp path path r in
              rw (save_text, e, r)
                (inr (ground arith, laws.remove_elsewhere _ tmp path differs ∙ undone ∙ kept))
        ]
      ]

  -- Save either returns no error and the state file then holds the encoded state, or it returns an
  -- error and the state file is as it was, whichever of its steps fails.
  pub save-Saves : (d : D) (s : State) → Saves d s.file_path (os.marshal s) (save d s)
  unfolding save
  save-Saves d s =
      let made = os.mkdir_all d (os.dir s.file_path) in
      let kept = laws.mkdir_below d s.file_path in
      elim (Bool-cases made.1) [
        | inr e ↦ rw (save, e) (inr (ground arith, kept))
        | inl e ↦ elim (Option-cases (os.marshal s)) [
          | inl m ↦ rw (save, e, m) (inr (ground arith, kept))
          | inr (text, m) ↦ elim (save_text-Saves made.0 s.file_path text) [
            | inl (done, reads) ↦ rw (save, e, m) (inl (done, reads))
            | inr (failed, same) ↦ rw (save, e, m) (inr (failed, same ∙ kept))
          ]
        ]
      ]

  migrate_onto_present :
      (d : D) (old new : String) → os.stat d new ≡ present → migrate_state_file d old new ≡ d
  unfolding migrate_state_file
  migrate_onto_present d old new e = ground (arith, e)

  load_file_reads :
      (d : D) (s loaded : State) (text : String) (now : ℕ)
      → os.read_file d s.file_path ≡ contents text
      → os.unmarshal text s ≡ some loaded
      → load_file d s now ≡ (d, loaded, true)
  unfolding load_file
  load_file_reads d s loaded text now reads decoded = rw (load_file, reads, decoded) refl

  -- A state that is saved without an error is what Load reads next, whatever file is at the old path,
  -- if the encoding is decoded to the state that it came from.
  pub load-save :
      (d : D) (s : State) (old_path : String) (now : ℕ)
      → ((text : String)
          → os.marshal s ≡ some text
          → os.unmarshal text (new_state s.file_path) ≡ some s)
      → (save d s).1 ≡ none
      → load (save d s).0 (new_state s.file_path) old_path now ≡ ((save d s).0, s, true)
  unfolding load new_state
  load-save d s old_path now decodes done = elim (save-Saves d s) [
    | inr (failed, same) ↦ absurd (failed done)
    | inl (_, (text, encoded, reads)) ↦
        let after = (save d s).0 in
        let here = laws.stat_reads after s.file_path text reads in
        let unmoved = migrate_onto_present after old_path s.file_path here in
        let same : (if not (old_path === "") && not (old_path === s.file_path)
              then migrate_state_file after old_path s.file_path
              else after)
            ≡ after =
          ground (arith, unmoved) in
        ap (λ d'. load_file d' (new_state s.file_path) now) same
        ∙ load_file_reads after (new_state s.file_path) s text now reads (decodes text encoded)
  ]

  -- Where the contents of the old file are after a migration.
  abbrev pub Kept : D → String → String → String → Type 0
  Kept d old new text = (os.read_file d old ≡ contents text) ⊎ (os.read_file d new ≡ contents text)

  copy_over-Kept :
      (d : D) (old new text : String)
      → new ≢ old
      → os.read_file d old ≡ contents text
      → Kept (copy_over d old new) old new text
  unfolding copy_over
  copy_over-Kept d old new text differs reads =
      let written = os.write_file d new text in
      elim (Bool-cases written.1) [
        | inl e ↦
            rw (copy_over, reads, e)
              (inr (
                laws.remove_elsewhere _ old new (λ q. differs (sym q))
                ∙ laws.write_reads d new text e))
        | inr e ↦
            rw (copy_over, reads, e) (inl (laws.write_elsewhere d new text old differs ∙ reads))
      ]

  moved-Kept :
      (d : D) (old new text : String)
      → new ≢ old
      → os.read_file d old ≡ contents text
      → Kept
          (if (os.rename d old new).1
            then (os.rename d old new).0
            else copy_over (os.rename d old new).0 old new)
          old
          new
          text
  moved-Kept d old new text differs reads = elim (Bool-cases (os.rename d old new).1) [
    | inl e ↦ rw e (inr (laws.rename_reads d old new e ∙ reads))
    | inr e ↦
        rw e (copy_over-Kept _ old new text differs (laws.rename_fails d old new old e ∙ reads))
  ]

  -- A migration from a readable file leaves its contents at the old or at the new path, whichever of
  -- its steps fails, and it changes nothing if there is a file at the new path.
  pub migrate_state_file_lem :
      (d : D) (old new text : String)
      → os.read_file d old ≡ contents text
      → Kept (migrate_state_file d old new) old new text
        × (os.stat d new ≡ present → migrate_state_file d old new ≡ d)
  unfolding migrate_state_file
  migrate_state_file_lem d old new text reads =
      let made = (os.mkdir_all d (os.dir new)).0 in
      let there = laws.stat_reads d old text reads in
      let still = laws.mkdir_keeps d (os.dir new) old text reads in
      (
        elim (Bool-cases (old === "" || new === "" || old === new)) [
          | inl e ↦ rw (migrate_state_file, e) (inl reads)
          | inr e ↦
              let differs : new ≢ old = λ q. ground (arith, e, ===_iff old new, q) in
              elim (Bool-cases (is_present (os.stat d new))) [
                | inl here ↦ rw (migrate_state_file, e, there, here) (inl reads)
                | inr free ↦
                    rw (migrate_state_file, e, there, free)
                      (moved-Kept made old new text differs still)
              ]
        ],
        migrate_onto_present d old new,
      )
