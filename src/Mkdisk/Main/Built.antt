-- ===== src/Mkdisk/Main/Built.antt =====
-- The way to an exit status of 0 of main of tools/mkdisk.c.
use gemiboot.Base.{ℕ, ◌≡◌, refl, ◌==◌, true, List, ◌∷◌, some}
use gemiboot.Mkdisk.Host.{Host}
use gemiboot.Mkdisk.Main.{
  exits, lies_inside, total_sectors, Inputs, Paths, image_of, read_inputs, write_image, build, main,
}

module _ {H : Type 0} (host : Host H) where
  -- The states of the host at which main calls it.
  abbrev with_disk : H → H
  with_disk h = (host.calloc total_sectors 512 h).1

  abbrev with_files : Paths → H → H
  with_files p h = (read_inputs host p (with_disk h)).1

  -- The disk is allocated, the six files are read, their image lies inside the block of the
  -- disk, and it is written as a whole.
  pub record HasBuilt (out_path : List ℕ) (p : Paths) (h : H) : Type 0 where
    pub disk : ℕ
    pub inputs : Inputs
    pub out_file : ℕ
    pub allocated : (host.calloc total_sectors 512 h).0 ≡ some disk
    pub loaded : (read_inputs host p (with_disk h)).0 ≡ some inputs
    pub inside : lies_inside inputs.io_sys.file.size (image_of inputs) ≡ true
    pub opened : (host.fopen out_path true (with_files p h)).0 ≡ some out_file
    pub written :
        (host.fwrite out_file
          (image_of inputs).g_disk
          512
          total_sectors
          (host.fopen out_path true (with_files p h)).1).0
        ≡ total_sectors

  build_zero :
      (out_path : List ℕ) (p : Paths) (h : H)
      → HasBuilt out_path p h
      → (h' : H) × (build host out_path p h ≡ exits 0 h')
  unfolding build write_image
  build_zero out_path p h b =
      let whole : (total_sectors == total_sectors) ≡ true = refl in
      rw (build, b.allocated, b.loaded, b.inside, write_image, b.opened, b.written) (_, refl)

  -- Where all of that is so, main exits with 0.
  pub main_zero :
      (name out_path : List ℕ) (p : Paths) (rest : List (List ℕ)) (h : H)
      → HasBuilt out_path p h
      → (h' : H) × (main host
            (name ∷ out_path ∷ p.mbr_path ∷ p.vbr_path ∷ p.io_sys_path ∷ p.ia32_path ∷ p.x64_path
              ∷ p.kernel_path ∷ rest)
            h
          ≡ exits 0 h')
  unfolding main
  main_zero name out_path p rest h = build_zero out_path p h
