-- ===== src/Fat16/Entries/AddFile.antt =====
-- A file added by `fat_add_file` of kernel/filesystem/fat16.c, and `fat_fs_read` of it.
use calm_os.Base.{
  ℕ, zero, suc, ◌+◌, ◌-◌, ◌*◌, ◌^◌, ◌≤◌, ◌<◌, ◌≡◌, ◌==◌, ◌&&◌, Bool, true, false, not, List, none,
  some, refl, arith, ap, ◌∙◌, sym, subst, length, if◌then◌else◌, inl, inr, leb, ltb, Bool-cases,
}
use calm_os.Disk.{Image, Disk, IsDisk, disk_view}
use calm_os.Fat16.Layout.{
  BiosBlock, with_bpb, wrap, bytes_per_cluster, entry_size, uint16_at, uint32_at,
  fat_get_cluster_addr, fat_get_cluster_count, fat_get_root_table_addr,
}
use calm_os.Fat16.Clusters.{fat_get_cluster_value}
use calm_os.Fat16.Clusters.Laws.{HasTable, with_bpb-same, value-same}
use calm_os.Fat16.Data.{fat_add_data, fat_read_data}
use calm_os.Fat16.Data.Chain.{mem, Chain-kept}
use calm_os.Fat16.Data.Area.{
  HasData, Stored, Stored-kept, mem_disk_read-kept, fat_get_cluster_addr_lem,
  fat_get_cluster_addr_bound,
}
use calm_os.Fat16.Data.Read.{fat_read_data-Stored}
use calm_os.Fat16.Data.Free.{free_count}
use calm_os.Fat16.Data.Add.Loop.{fat_add_data-Grown}
use calm_os.Fat16.Data.Add.ReadBack.{Grown-Chain, Grown-mark}
use calm_os.Fat16.Names.{StringOps, base_name, stem, extension, fat_split_path}
use calm_os.Fat16.Entries.{
  is_used, entry_addr, find_entry_from, fat_find_entry, fat_find_free_entry, fat_update_dir_entry,
  add_entry, fat_add_file, file_of, File, cut_len, fat_fs_read,
}
use calm_os.Fat16.Entries.Update.{
  update-outside, update-cluster, update-size, length-set_padded_string,
}

-- A boot block whose root directory stands between the table and the data
pub record HasDirectory (b : BiosBlock) : Type 0 where
  pub behind : fat_get_root_table_addr b + fat_get_cluster_count b * 2 ≤ fat_get_cluster_addr b 0
  pub before_data :
      fat_get_cluster_addr b 0 + b.root_entry_count * entry_size ≤ fat_get_cluster_addr b 2

find_entry_from_bound :
    (d : Disk) (m : Image) (cluster : ℕ) (free : Bool) (n i j : ℕ)
    → find_entry_from d m cluster free n i ≡ some j
    → j < i + n
unfolding find_entry_from
find_entry_from_bound d m cluster free zero i j e = cc
find_entry_from_bound d m cluster free (suc n) i j e =
    let used = is_used (disk_view d (entry_addr d m cluster i) m 0) in
    elim (Bool-cases (if free then not used else used)) [
      | inl y ↦ ground (arith, rw y at e)
      | inr o ↦
          let rest = find_entry_from_bound d m cluster free n (i + 1) j (rw o at e) in omega arith
    ]

name-length : (ops : StringOps) (path : List ℕ) → length ((fat_split_path ops path).0) ≡ 8
unfolding fat_split_path
name-length ops path =
    let name = base_name (ops.strrchr path 0x2f) path in
    length-set_padded_string 8 (some (stem (ops.strchr name 0x2e) name))

ext-length : (ops : StringOps) (path : List ℕ) → length ((fat_split_path ops path).1) ≡ 3
unfolding fat_split_path
ext-length ops path =
    let name = base_name (ops.strrchr path 0x2f) path in
    length-set_padded_string 3 (extension (ops.strchr name 0x2e) name)

find_entry_bound :
    (d : Disk) (m : Image) (cluster i : ℕ) (free : Bool)
    → fat_find_entry d cluster free 0 m ≡ some i
    → i < (with_bpb d m).root_entry_count
unfolding fat_find_entry
find_entry_bound d m cluster i free e =
    omega
      (arith, find_entry_from_bound d m cluster free ((with_bpb d m).root_entry_count - 0) 0 i e)

find_free_entry_lem :
    (d : Disk) (m : Image) (i : ℕ)
    → fat_find_entry d 0 true 0 m ≡ some i
    → fat_find_free_entry d 0 m ≡ entry_addr d m 0 i
unfolding fat_find_free_entry
find_free_entry_lem d m i e =
    ap (λ o. elim o as (λ _. ℕ) [ none ↦ 0 | some j ↦ entry_addr d m 0 j ]) e

add_file_lem :
    (ops : StringOps) (d : Disk) (fat_index : ℕ) (path content : List ℕ) (m u : Image) (entry r : ℕ)
    → fat_find_free_entry d 0 m ≡ entry
    → (entry == 0) ≡ false
    → fat_add_data d fat_index content m ≡ some (r, u)
    → (r == 0) ≡ false
    → fat_add_file ops d 0 fat_index path content m
      ≡ some (
        entry,
        fat_update_dir_entry d entry r
            ((fat_split_path ops path).0)
            ((fat_split_path ops path).1)
            (length content)
            u,
      )
unfolding fat_add_file add_entry
add_file_lem ops d fat_index path content m u entry r e used f stored = rw (e, used, f, stored) refl

cut_all : (f : File) (n : ℕ) → f.size ≡ n → n < 2 ^ 32 → cut_len f 0 n ≡ n
cut_all f n e l = ground (arith, e)

module _ (d : Disk) (laws : IsDisk d) (b : BiosBlock) (h : HasTable b) (w : HasData b)
    (dir : HasDirectory b) where
  -- What the write of a directory entry leaves
  module _ (m t : Image) (at : with_bpb d m ≡ b) (i : ℕ) (l : i < b.root_entry_count)
      (kept : (k : ℕ)
        → (leb (fat_get_cluster_addr b 0 + i * 32) k
            && ltb k (fat_get_cluster_addr b 0 + i * 32 + 32))
          ≡ false
        → t k ≡ m k) where
    kept_bpb : with_bpb d t ≡ b
    kept_bpb = with_bpb-same d laws t m (λ k l. kept k (ground (arith, h.behind, dir.behind))) ∙ at

    kept_value : (j : ℕ) → fat_get_cluster_value d j t ≡ fat_get_cluster_value d j m
    kept_value = value-same d laws b t m h kept_bpb at (λ k o. kept k (ground (arith, dir.behind)))

    kept_Stored :
        (xs bs : List ℕ)
        → ((j : ℕ) → mem j xs ≡ true → (2 ≤ j) × (j < fat_get_cluster_count b))
        → Stored b m xs bs
        → Stored b t xs bs
    kept_Stored xs bs inside = Stored-kept b m t xs bs (λ x n o s.
        mem_disk_read-kept n (fat_get_cluster_addr b x) m t (λ k lo hi.
          kept k (ground (arith, dir.before_data, (inside x o), fat_get_cluster_addr_lem b x w))))

  entry_addr_lem :
      (m : Image) (i : ℕ)
      → with_bpb d m ≡ b
      → i < b.root_entry_count
      → entry_addr d m 0 i ≡ fat_get_cluster_addr b 0 + i * 32
  entry_addr_lem m i at l =
      ap (λ k. wrap (fat_get_cluster_addr k 0 + i * entry_size)) at
      ∙ omega (arith, dir.before_data, fat_get_cluster_addr_bound b 2)

  fs_read_lem :
      (t : Image) (entry r : ℕ) (content : List ℕ)
      → uint16_at (λ k. t (entry + k)) 26 ≡ r
      → uint32_at (λ k. t (entry + k)) 28 ≡ length content
      → length content < 2 ^ 32
      → fat_fs_read d (length content) (file_of d 0 entry t) 0 (length content) t
        ≡ fat_read_data d (length content) r (length content) 0 t
  unfolding fat_fs_read file_of
  fs_read_lem t entry r content c s l =
      let n = length content in
      let v = laws.view entry t in
      let cluster : uint16_at (disk_view d entry t) 26 ≡ r = (λ i. v 26 i + 256 * v 27 i) ∙ c in
      let size : uint32_at (disk_view d entry t) 28 ≡ n =
        (λ i. v 28 i + 256 * v 29 i + 65536 * (v 30 i + 256 * v 31 i)) ∙ s in
      let len : cut_len (file_of d 0 entry t) 0 n ≡ n = cut_all (file_of d 0 entry t) n size l in
      λ i. fat_read_data d n (cluster i) (len i) 0 t

  module _ (end : ℕ) (count_end : fat_get_cluster_count b ≤ end) (end_small : end < 2 ^ 16)
      (m : Image) (two : 2 ≤ fat_get_cluster_count b) (at : with_bpb d m ≡ b)
      (mark : fat_get_cluster_value d 1 m ≡ some end) where
    -- A file added to the root directory is read: on a disk whose boot block has the table, the root
    -- directory and the data area one behind the other, and whose cluster 1 holds a mark that is no
    -- cluster's number, with a free entry in the root directory and room for the content, which is
    -- not empty, in the free clusters, `fat_add_file` ends, fails no assertion, and returns the
    -- address of that entry; and `fat_fs_read` of the file that the entry describes, from its start
    -- and of the length of the content, returns the content.
    pub fat_fs_read-fat_add_file :
        (ops : StringOps) (fat_index : ℕ) (path content : List ℕ) (i : ℕ)
        → 0 < length content
        → length content ≤ free_count d m (fat_get_cluster_count b - 2) 2 * bytes_per_cluster b
        → length content + bytes_per_cluster b < 2 ^ 32
        → fat_find_entry d 0 true 0 m ≡ some i
        → (t : Image) × (fat_add_file ops d 0 fat_index path content m
            ≡ some (entry_addr d m 0 i, t))
          × (fat_fs_read d
                (length content)
                (file_of d 0 (entry_addr d m 0 i) t)
                0
                (length content)
                t
              ≡ some content)
    fat_fs_read-fat_add_file ops fat_index path content i p k small e =
        let (r, q, zs, u, f, g) =
          fat_add_data-Grown d laws end b h w count_end end_small m two at mark fat_index content p
            k in
        let (name, ext) = fat_split_path ops path in
        let l : i < b.root_entry_count =
          subst (λ k. i < k.root_entry_count) at (find_entry_bound d m 0 i true e) in
        let a = entry_addr_lem m i at l in
        let (nz, own, c) =
          Grown-Chain d laws end b h w count_end end_small m u zs content r q p g g.ends g.stored in
        let entry = entry_addr d m 0 i in
        let t = fat_update_dir_entry d entry r name ext (length content) u in
        let kept : (k : ℕ)
            → (leb (fat_get_cluster_addr b 0 + i * 32) k
                && ltb k (fat_get_cluster_addr b 0 + i * 32 + 32))
              ≡ false
            → t k ≡ u k =
          λ k o.
            update-outside d laws entry r name ext (length content) u (name-length ops path)
              (ext-length ops path) k (ap (λ x. leb x k && ltb k (x + 32)) a ∙ o) in
        let cluster =
          update-cluster d laws entry r name ext (length content) u (name-length ops path)
            (ext-length ops path) in
        let size =
          update-size d laws entry r name ext (length content) u (name-length ops path)
            (ext-length ops path) in
        let used : (entry == 0) ≡ false = ground (arith, a, h.behind, dir.behind) in
        let stored : (r == 0) ≡ false = ground (arith, nz) in
        (
          t,
          add_file_lem ops d fat_index path content m u entry r (find_free_entry_lem d m i e) used f
              stored,
          fs_read_lem t entry r content (cluster ∙ omega (arith, g.inside r own))
                (size ∙ omega arith) (omega arith)
              ∙ fat_read_data-Stored d laws end t zs content (length content) r
                  (subst (λ k. 0 < bytes_per_cluster k) (sym (kept_bpb u t g.bpb i l kept)) w.size)
                  nz
                  (kept_value u t g.bpb i l kept 1
                    ∙ Grown-mark d laws end b h w count_end end_small m two at mark zs content r q u
                        g)
                  (Chain-kept d end u t r zs (λ j o. kept_value u t g.bpb i l kept j) c)
                  (subst (λ k. Stored k t zs content) (sym (kept_bpb u t g.bpb i l kept))
                    (kept_Stored u t g.bpb i l kept zs content g.inside g.stored))
                  g.short
                  (subst (λ k. length zs * bytes_per_cluster k < 2 ^ 32)
                    (sym (kept_bpb u t g.bpb i l kept)) (omega (arith, g.room))),
        )
