-- ===== src/Mkdisk/Examples.antt =====
-- The name of the kernel, and the theorems about mkdisk at it.
use gemiboot.Base.{ℕ, ◌≡◌, refl, arith, List, [], ◌∷◌, ltb, if◌then◌else◌, byte}
use gemiboot.Fat.Name.{format_83_name}
use gemiboot.Fat.Disk.{fat_entry}
use gemiboot.Mkdisk.Files.{write_file_data}
use gemiboot.Mkdisk.Files.Root.{HasAdded, write_file_data-HasAdded}
use gemiboot.Mkdisk.{format_83, Image, fat32_set_fat_entry}
use gemiboot.Mkdisk.Table.{image_disk, IsTableOf, fat32_set_fat_entry-fat_entry}
use gemiboot.Mkdisk.Layout.Boots.{mkdisk_volume}
use gemiboot.Mkdisk.Name.{format_83-format_83_name}

-- gemios.elf
abbrev kernel_name : List ℕ
kernel_name = b'g' ∷ b'e' ∷ b'm' ∷ b'i' ∷ b'o' ∷ b's' ∷ b'.' ∷ b'e' ∷ b'l' ∷ b'f' ∷ []

format_83-format_83_name_example : byte (format_83_name kernel_name (λ k. 7)) 9 ≡ (
    if ltb 9 8
    then byte (format_83 kernel_name (λ k. 1) (λ k. 2)).0 9
    else byte (format_83 kernel_name (λ k. 1) (λ k. 2)).1 1)
format_83-format_83_name_example =
    format_83-format_83_name kernel_name (λ k. 1) (λ k. 2) (λ k. 7) 9 (omega arith) refl refl
      (omega arith)

-- An empty image with the table's place in it, and the volume that stands for it.
abbrev empty_image : Image
empty_image = record {
  g_disk = λ k. 0;
  g_fat_start = 2080;
  g_fat_size = 1020;
  g_data_start = 4120;
  g_next_free_clus = 3;
}

volume-IsTableOf : IsTableOf mkdisk_volume empty_image
volume-IsTableOf = record { fat32 = refl; start = refl; fits = omega arith }

fat32_set_fat_entry-fat_entry_example :
    fat_entry mkdisk_volume (image_disk (fat32_set_fat_entry 3 0xffffffff empty_image)) 4
    ≡ fat_entry mkdisk_volume (image_disk empty_image) 4
fat32_set_fat_entry-fat_entry_example =
    fat32_set_fat_entry-fat_entry mkdisk_volume empty_image 3 0xffffffff 4 volume-IsTableOf
      (omega arith) (omega arith)

-- The image with an empty root directory, in front of the first file.
write_file_data-HasAdded_example :
    HasAdded 0 kernel_name
      (λ k. k)
      5000
      empty_image
      (write_file_data 2 kernel_name (λ k. k) 5000 empty_image).1
write_file_data-HasAdded_example =
    write_file_data-HasAdded 0 5000 kernel_name (λ k. k) empty_image
      (record { fat_start = refl; fat_size = refl; data_start = refl }) (omega arith) (omega arith)
      (omega arith) (λ j lt. absurd (omega arith)) refl
