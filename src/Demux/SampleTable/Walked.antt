-- ===== src/Demux/SampleTable/Walked.antt =====
-- What `walk` returns, against the tables that it reads.
use cmafly.Prelude.{ℕ, ◌+◌, ◌<◌, ◌≡◌, refl, ap, sym, subst, ◌∙◌, arith, Bool, ℤ, pos}
use Prim.Native.String.{String}
use cmafly.Prelude.{zero, suc, ◌∷◌, ◌++◌, map-append}
use cmafly.Prelude.{List, [], map, length, get_or, replicate, length-replicate, Option, none, some}
use cmafly.Error.{ok, bind_inv}
use cmafly.ByteOrder.{ByteOrder}
use cmafly.Demux.Source.{ReadAt}
use cmafly.Demux.Locations.{ByteRange, SampleTableLocs}
use cmafly.Demux.Sample.{RawSampleEntry}
use cmafly.Demux.SampleTable.{
  Columns, WalkedSamples, walk, walk_rows, transpose, get_table, is_none, expand_ctts, mark_sync,
}
use cmafly.Demux.SampleTable.Expand.{expand_stsc, expand_run_table}
use cmafly.Demux.SampleTable.Expand.Runs.{written_out, expand_run_table-eq}
use cmafly.Demux.SampleTable.Tables.{
  read_stsz, read_stts, read_stsc, read_stss, read_ctts, read_chunk_offsets,
}
use cmafly.Demux.SampleTable.Rows.{chunk_rows, layout, walk_rows-columns}
use cmafly.Demux.SampleTable.Sync.{listed, mark_sync_lem}

module _ ⦃be : ByteOrder⦄ (reader : ReadAt) (locs : SampleTableLocs) where
  -- The steps of a walk that returns `ws`: the tables read, the columns and the rows.
  record Trace (ws : WalkedSamples) : Type 0 where
    sizes : List ℕ
    runs : List (ℕ × ℕ)
    chunks : List (ℕ × ℕ × ℕ)
    chunk_offs : List ℕ
    stss_table : Option (List ℕ)
    ctts_table : Option (List (ℕ × ℤ))
    deltas : List ℕ
    offsets : List ℤ
    sync : List Bool
    spcs : List ℕ
    sizes_read : read_stsz reader locs.stsz ≡ ok sizes
    runs_read : read_stts reader locs.stts ≡ ok runs
    chunks_read : read_stsc reader locs.stsc ≡ ok chunks
    offs_read : read_chunk_offsets reader locs.chunk_offsets ≡ ok chunk_offs
    stss_read : transpose (read_stss reader) locs.stss ≡ ok stss_table
    ctts_read : transpose (read_ctts reader) locs.ctts ≡ ok ctts_table
    deltas_made : expand_run_table runs (length sizes) "stts" ≡ ok deltas
    offsets_made : expand_ctts (length sizes) ctts_table ≡ ok offsets
    sync_made :
        mark_sync
          (length sizes)
          (get_table stss_table)
          (replicate (length sizes) (is_none locs.stss))
        ≡ ok sync
    spcs_made : expand_stsc chunks (length chunk_offs) ≡ ok spcs
    rows_made :
        walk_rows
          (record {
            n = length sizes;
            sizes = sizes;
            dts_deltas = deltas;
            cts_offsets = offsets;
            sync = sync;
          })
          chunk_offs
          spcs
        ≡ ok ws.samples
    absent : ws.stss_absent ≡ is_none locs.stss

  abbrev columns : {ws : WalkedSamples} → Trace ws → Columns
  columns t = record {
    n = length t.sizes;
    sizes = t.sizes;
    dts_deltas = t.deltas;
    cts_offsets = t.offsets;
    sync = t.sync;
  }

  trace : (ws : WalkedSamples) → walk reader locs ≡ ok ws → Trace ws
  unfolding walk
  trace ws e = bind_inv (read_stsz reader locs.stsz) _ e λ sizes a1 e1.
      bind_inv (read_stts reader locs.stts) _ e1 λ runs a2 e2.
        bind_inv (read_stsc reader locs.stsc) _ e2 λ chunks a3 e3.
          bind_inv (read_chunk_offsets reader locs.chunk_offsets) _ e3 λ offs a4 e4.
            bind_inv (transpose (read_stss reader) locs.stss) _ e4 λ stss a5 e5.
              bind_inv (transpose (read_ctts reader) locs.ctts) _ e5 λ ctts a6 e6.
                bind_inv (expand_run_table runs (length sizes) "stts") _ e6 λ deltas a7 e7.
                  bind_inv (expand_ctts (length sizes) ctts) _ e7 λ cts a8 e8.
                    bind_inv
                      (mark_sync (length sizes) (get_table stss)
                        (replicate (length sizes) (is_none locs.stss)))
                      _ e8
                      λ sync a9 e9. bind_inv (expand_stsc chunks (length offs)) _ e9 λ spcs a10 e10.
                        bind_inv
                          (walk_rows
                            (record {
                              n = length sizes;
                              sizes = sizes;
                              dts_deltas = deltas;
                              cts_offsets = cts;
                              sync = sync;
                            })
                            offs spcs)
                          _ e10
                          λ samples a11 e11. record {
                            sizes = sizes;
                            runs = runs;
                            chunks = chunks;
                            chunk_offs = offs;
                            stss_table = stss;
                            ctts_table = ctts;
                            deltas = deltas;
                            offsets = cts;
                            sync = sync;
                            spcs = spcs;
                            sizes_read = a1;
                            runs_read = a2;
                            chunks_read = a3;
                            offs_read = a4;
                            stss_read = a5;
                            ctts_read = a6;
                            deltas_made = a7;
                            offsets_made = a8;
                            sync_made = a9;
                            spcs_made = a10;
                            rows_made = cc;
                            absent = cc;
                          }

-- The offsets of the samples of one chunk, one behind the other from `off` on, and those of all
-- chunks, each chunk from its own offset on.
abbrev offsets_in : List ℕ → ℕ → ℕ → ℕ → List ℕ
offsets_in sizes zero off i = []
offsets_in sizes (suc spc) off i = off ∷ offsets_in sizes spc (off + get_or sizes i 0) (i + 1)

abbrev pub sample_offsets : List ℕ → List ℕ → ℕ → List ℕ → ℕ → List ℕ
sample_offsets sizes chunk_offs c [] i = []
sample_offsets sizes chunk_offs c (spc ∷ rest) i =
    offsets_in sizes spc (get_or chunk_offs c 0) i
    ++ sample_offsets sizes chunk_offs (c + 1) rest (i + spc)

chunk_rows-offset :
    (cols : Columns) (spc off i : ℕ)
    → map RawSampleEntry.offset (chunk_rows cols spc off i) ≡ offsets_in cols.sizes spc off i
chunk_rows-offset cols zero off i = refl
chunk_rows-offset cols (suc spc) off i =
    ap (λ l. off ∷ l) (chunk_rows-offset cols spc (off + get_or cols.sizes i 0) (i + 1))

layout-offset :
    (cols : Columns) (chunk_offs : List ℕ) (c : ℕ) (spcs : List ℕ) (i : ℕ)
    → map RawSampleEntry.offset (layout cols chunk_offs c spcs i)
      ≡ sample_offsets cols.sizes chunk_offs c spcs i
layout-offset cols chunk_offs c [] i = refl
layout-offset cols chunk_offs c (spc ∷ rest) i = cc (
  map-append RawSampleEntry.offset (chunk_rows cols spc (get_or chunk_offs c 0) i)
      (layout cols chunk_offs (c + 1) rest (i + spc)),
  chunk_rows-offset cols spc (get_or chunk_offs c 0) i,
  layout-offset cols chunk_offs (c + 1) rest (i + spc),
)

expand_run_table-ok :
    {T : Type 0} (runs : List (ℕ × T)) (n : ℕ) (atom : String) (out : List T)
    → expand_run_table runs n atom ≡ ok out
    → (out ≡ written_out runs) × (length out ≡ n)
expand_run_table-ok runs n atom out e = ground (arith, e, expand_run_table-eq runs n atom)

get_or-replicate : (n i : ℕ) → get_or (replicate n Bool.false) i Bool.false ≡ Bool.false
get_or-replicate zero i = refl
get_or-replicate (suc n) zero = refl
get_or-replicate (suc n) (suc i) = get_or-replicate n i

module _ ⦃be : ByteOrder⦄ (reader : ReadAt) (n : ℕ) where
  -- The composition offsets: 0 without a `ctts`, else its runs written out.
  abbrev pub CtsColumn : Option ByteRange → List ℤ → Type 0
  CtsColumn none col = col ≡ replicate n (pos 0)
  CtsColumn (some range) col =
      (runs : List (ℕ × ℤ)) × (read_ctts reader range ≡ ok runs) × (col ≡ written_out runs)

  -- The sync flags: set without an `stss`, else set on the samples whose number it lists.
  abbrev pub SyncColumn : Option ByteRange → List Bool → Type 0
  SyncColumn none col = col ≡ replicate n Bool.true
  SyncColumn (some range) col =
      (stss : List ℕ) × (read_stss reader range ≡ ok stss)
      × ((i : ℕ) → i < n → get_or col i Bool.false ≡ listed stss (i + 1))

  cts_lem :
      (loc : Option ByteRange) (table : Option (List (ℕ × ℤ))) (col : List ℤ)
      → transpose (read_ctts reader) loc ≡ ok table
      → expand_ctts n table ≡ ok col
      → CtsColumn loc col × (length col ≡ n)
  cts_lem none none col e made = (cc, ground (arith, made, length-replicate n (pos 0)))
  cts_lem none (some runs) col e made = absurd cc
  cts_lem (some range) none col e made =
      bind_inv (read_ctts reader range) _ e λ runs a e'. absurd cc
  cts_lem (some range) (some table) col e made = bind_inv (read_ctts reader range) _ e λ runs a e'.
      let (written, len) = expand_run_table-ok table n "ctts" col made in
      ((table, a ∙ cc, written), len)

  sync_lem :
      (loc : Option ByteRange) (table : Option (List ℕ)) (col : List Bool)
      → transpose (read_stss reader) loc ≡ ok table
      → mark_sync n (get_table table) (replicate n (is_none loc)) ≡ ok col
      → SyncColumn loc col × (length col ≡ n)
  unfolding mark_sync
  sync_lem none none col e made = (cc, ground (arith, made, length-replicate n Bool.true))
  sync_lem none (some stss) col e made = absurd cc
  sync_lem (some range) none col e made =
      bind_inv (read_stss reader range) _ e λ stss a e'. absurd cc
  sync_lem (some range) (some stss) col e made = bind_inv (read_stss reader range) _ e λ read a e'.
      let (len, marks) =
        mark_sync_lem n stss (replicate n Bool.false) col (length-replicate n Bool.false) made in
      ((stss, a ∙ cc, λ i h. ground (arith, marks i h, get_or-replicate n i)), len)

-- What the samples `ws` are, against the tables of the source.
pub record Walked ⦃be : ByteOrder⦄ (reader : ReadAt) (locs : SampleTableLocs) (ws : WalkedSamples)
    : Type 0 where
  pub sizes : List ℕ
  pub runs : List (ℕ × ℕ)
  pub chunks : List (ℕ × ℕ × ℕ)
  pub chunk_offs : List ℕ
  pub spcs : List ℕ
  pub stsz_read : read_stsz reader locs.stsz ≡ ok sizes
  pub stts_read : read_stts reader locs.stts ≡ ok runs
  pub stsc_read : read_stsc reader locs.stsc ≡ ok chunks
  pub stco_read : read_chunk_offsets reader locs.chunk_offsets ≡ ok chunk_offs
  pub spcs_made : expand_stsc chunks (length chunk_offs) ≡ ok spcs
  pub size_column : map RawSampleEntry.size ws.samples ≡ sizes
  pub delta_column : map RawSampleEntry.dts_delta ws.samples ≡ written_out runs
  pub cts_column :
      CtsColumn reader (length sizes) locs.ctts (map RawSampleEntry.cts_offset ws.samples)
  pub sync_column :
      SyncColumn reader (length sizes) locs.stss (map RawSampleEntry.is_sync ws.samples)
  pub offset_column :
      map RawSampleEntry.offset ws.samples ≡ sample_offsets sizes chunk_offs 0 spcs 0

-- The samples of a walk that returns are, field by field, what the tables say: the sizes of the
-- `stsz`, the deltas of the `stts` written out, the composition offsets and sync flags of the `ctts`
-- and `stss` where there are any, and in each chunk one sample behind the other from the offset that
-- `stco` or `co64` gives to the chunk.
pub walk-Walked :
    ⦃be : ByteOrder⦄ (reader : ReadAt) (locs : SampleTableLocs) (ws : WalkedSamples)
    → walk reader locs ≡ ok ws
    → Walked reader locs ws
walk-Walked reader locs ws e =
    let t = trace reader locs ws e in
    let (written, dn) = expand_run_table-ok t.runs (length t.sizes) "stts" t.deltas t.deltas_made in
    let (cts, cn) =
      cts_lem reader (length t.sizes) locs.ctts t.ctts_table t.offsets t.ctts_read t.offsets_made in
    let (sync, yn) =
      sync_lem reader (length t.sizes) locs.stss t.stss_table t.sync t.stss_read t.sync_made in
    let (rows, s, d, c, y) =
      walk_rows-columns (columns reader locs t) t.chunk_offs t.spcs ws.samples refl dn cn yn
        t.rows_made in
    record {
      sizes = t.sizes;
      runs = t.runs;
      chunks = t.chunks;
      chunk_offs = t.chunk_offs;
      spcs = t.spcs;
      stsz_read = t.sizes_read;
      stts_read = t.runs_read;
      stsc_read = t.chunks_read;
      stco_read = t.offs_read;
      spcs_made = t.spcs_made;
      size_column = s;
      delta_column = d ∙ written;
      cts_column = subst (CtsColumn reader (length t.sizes) locs.ctts) (sym c) cts;
      sync_column = subst (SyncColumn reader (length t.sizes) locs.stss) (sym y) sync;
      offset_column =
          ap (map RawSampleEntry.offset) rows
          ∙ layout-offset (columns reader locs t) t.chunk_offs 0 t.spcs 0;
    }
