-- ===== src/Sfs/FileIo/Step.antt =====
-- What a step of file I/O does to the file and to the uio's regions, and how steps follow one
-- another.
use project_os.Prelude.{
  ℕ, ◌+◌, ◌-◌, ◌^◌, ◌≤◌, ◌<◌, ◌≡◌, refl, sym, ◌∙◌, ap, subst, Bool, true, false, ◌&&◌, ltb, leb,
  if◌then◌else◌, Bool-cases, inl, inr, arith,
}
use project_os.Uio.{UioRw, uio_read, uio_write, is_write}
use project_os.Uio.View.{
  addr, scatter, scatter_same, scatter-add, Advanced, Advanced-trans, HasRoom,
}
use project_os.Sfs.Bmap.View.{IsFile}
use project_os.Sfs.Content.{max_size, content, SameContent}
use project_os.Sfs.Meta.View.{Intact}
use project_os.Sfs.FileIo.{Request}

-- A byte that the step covers.
abbrev pub covers : (n : ℕ) → Request → (o : ℕ) → Bool
covers n s o = leb s.uio.offset o && ltb o (s.uio.offset + n)

-- A read of `n` bytes stores the file's bytes in the regions; a write gives the file the bytes of
-- the regions.
abbrev pub Bytes : UioRw → ℕ → Request → Request → Type 0
Bytes uio_read n s s' =
    SameContent s.file s'.file
    × (s'.uio.mem ≡ scatter n (addr s.uio.iov) (λ i. content s.file (s.uio.offset + i)) s.uio.mem)
Bytes uio_write n s s' =
    ((o : ℕ)
      → o < max_size
      → content s'.file o ≡ (
          if covers n s o then s.uio.mem (addr s.uio.iov (o - s.uio.offset)) else content s.file o))
    × (s'.uio.mem ≡ s.uio.mem)

-- What no step changes.
pub record Keeps (s s' : Request) : Type 0 where
  pub file : IsFile s'.file
  pub size : s'.file.size ≡ s.file.size
  pub kind : s'.file.kind ≡ s.file.kind
  pub nblocks : s'.file.nblocks ≡ s.file.nblocks
  pub lock : s'.file.lock ≡ s.file.lock
  pub rw_lem : s'.uio.rw ≡ s.uio.rw

-- A step of `n` bytes was made.
pub record Did (n : ℕ) (s s' : Request) : Type 0 where
  pub keeps : Keeps s s'
  pub adv : Advanced n s.uio s'.uio
  pub bytes : Bytes s.uio.rw n s s'

-- A step of `n` bytes returned an error: a write may have changed some of the bytes that it covers.
pub record Quit (n : ℕ) (s : Request) (s' : Request) : Type 0 where
  pub keeps : Keeps s s'
  pub outside :
      (o : ℕ)
      → o < max_size
      → (is_write s.uio.rw && covers n s o) ≡ false
      → content s'.file o ≡ content s.file o

-- A step of `n` bytes can be made. A block number must not overflow 32 bits when it is counted in
-- bytes.
pub record Ready (n : ℕ) (s : Request) : Type 0 where
  pub file : IsFile s.file
  pub room : HasRoom n s.uio
  pub fits : s.uio.offset + n ≤ max_size
  pub disk : s.file.nblocks ≤ 2 ^ 23

pub Keeps-Intact : (s s' : Request) → Intact s.file s'.file → s'.uio.rw ≡ s.uio.rw → Keeps s s'
Keeps-Intact s s' a r = record {
  file = a.file;
  size = a.size;
  kind = a.kind;
  nblocks = a.nblocks;
  lock = a.lock;
  rw_lem = r;
}

pub Keeps-trans : (s t u : Request) → Keeps s t → Keeps t u → Keeps s u
Keeps-trans s t u a b = record {
  file = b.file;
  size = b.size ∙ a.size;
  kind = b.kind ∙ a.kind;
  nblocks = b.nblocks ∙ a.nblocks;
  lock = b.lock ∙ a.lock;
  rw_lem = b.rw_lem ∙ a.rw_lem;
}

pub Quit-Intact :
    (n : ℕ) (s s' : Request) → Intact s.file s'.file → s'.uio.rw ≡ s.uio.rw → Quit n s s'
Quit-Intact n s s' a r = record { keeps = Keeps-Intact s s' a r; outside = λ o h _. a.same o h }

module _ (k m : ℕ) (s t u : Request) (ready : Ready (k + m) s) where
  Bytes-trans :
      (dir : UioRw)
      → Advanced k s.uio t.uio
      → Bytes dir k s t
      → Bytes dir m t u
      → Bytes dir (k + m) s u
  Bytes-trans uio_read a (c1, m1) (c2, m2) = (
    λ o h. c2 o h ∙ c1 o h,
    m2
        ∙ rw m1 (
            scatter_same m (addr t.uio.iov) (λ i. addr s.uio.iov (k + i))
              (λ i. content t.file (t.uio.offset + i))
              (λ i. content s.file (s.uio.offset + (k + i))) _
              (λ i h.
                let e : t.uio.offset + i ≡ s.uio.offset + (k + i) = omega (arith, a.offset) in
                (
                  a.addrs i (omega (arith, a.total_lem, ready.room.regions)),
                  rw e (c1 (s.uio.offset + (k + i)) (omega (arith, ready.fits))),
                )))
        ∙ sym (scatter-add m k (addr s.uio.iov) (λ i. content s.file (s.uio.offset + i)) s.uio.mem),
  )
  Bytes-trans uio_write a (c1, m1) (c2, m2) = (
    λ o h. elim (Bool-cases (covers m t o)) [
      | inl e ↦
          let inside : covers (k + m) s o ≡ true = ground (arith, a.offset) in
          let off : k + (o - t.uio.offset) ≡ o - s.uio.offset = ground (arith, a.offset) in
          c2 o h
          ∙ rw (e, inside, m1, ← off)
              (ap s.uio.mem (
                a.addrs (o - t.uio.offset)
                  (ground (arith, a.offset, a.total_lem, ready.room.regions))))
      | inr e ↦
          let alike : covers k s o ≡ covers (k + m) s o = ground (arith, a.offset) in
          c2 o h ∙ rw e (c1 o h ∙ rw alike)
    ],
    m2 ∙ m1,
  )

  pub Did-trans : Did k s t → Did m t u → Did (k + m) s u
  Did-trans a b = record {
    keeps = Keeps-trans s t u a.keeps b.keeps;
    adv = Advanced-trans k m s.uio t.uio u.uio a.adv b.adv;
    bytes =
        Bytes-trans s.uio.rw a.adv a.bytes (subst (λ dir. Bytes dir m t u) a.keeps.rw_lem b.bytes);
  }

  pub Quit-trans : Did k s t → Quit m t u → Quit (k + m) s u
  Quit-trans a q = record {
    keeps = Keeps-trans s t u a.keeps q.keeps;
    outside = λ o h out.
        let later : (is_write t.uio.rw && covers m t o) ≡ false =
          rw a.keeps.rw_lem (ground (arith, a.adv.offset)) in
        let first : (is_write s.uio.rw && covers k s o) ≡ false = ground arith in
        q.outside o h later ∙ unchanged s.uio.rw o h first a.bytes;
  }
    where
      unchanged :
          (dir : UioRw) (o : ℕ)
          → o < max_size
          → (is_write dir && covers k s o) ≡ false
          → Bytes dir k s t
          → content t.file o ≡ content s.file o
      unchanged uio_read o h out (c, e) = c o h
      unchanged uio_write o h out (c, e) = c o h ∙ rw out

  pub Ready-Did : Did k s t → Ready m t
  Ready-Did a = record {
    file = a.keeps.file;
    room = record {
      asked = omega (arith, a.adv.resid, ready.room.asked);
      regions = omega (arith, a.adv.total_lem, ready.room.regions);
      small = omega (arith, a.adv.resid, ready.room.small);
    };
    fits = omega (arith, a.adv.offset, ready.fits);
    disk = omega (arith, a.keeps.nblocks, ready.disk);
  }

-- A part of a step that can be made.
pub Ready-part : (k n : ℕ) (s : Request) → k ≤ n → Ready n s → Ready k s
Ready-part k n s h r = record {
  file = r.file;
  room = record {
    asked = omega (arith, r.room.asked);
    regions = omega (arith, r.room.regions);
    small = r.room.small;
  };
  fits = omega (arith, r.fits);
  disk = r.disk;
}

module _ (k n : ℕ) (s t u : Request) (ready : Ready n s) (le : k ≤ n) (a : Did k s t) where
  whole_length : k + (n - k) ≡ n
  whole_length = omega arith

  whole_Ready : Ready (k + (n - k)) s
  whole_Ready = rw whole_length ready

  -- The rest of a step.
  pub Did-rest : Did (n - k) t u → Did n s u
  Did-rest b = subst (λ m. Did m s u) whole_length (Did-trans k (n - k) s t u whole_Ready a b)

  pub Quit-rest : Quit (n - k) t u → Quit n s u
  Quit-rest q = subst (λ m. Quit m s u) whole_length (Quit-trans k (n - k) s t u whole_Ready a q)

pub Ready-rest : (k n : ℕ) (s t : Request) → Ready n s → k ≤ n → Did k s t → Ready (n - k) t
Ready-rest k n s t ready le a =
    let e : k + (n - k) ≡ n = omega arith in Ready-Did k (n - k) s t t (rw e ready) a

-- Nothing is asked for.
pub Did-none : (s : Request) → IsFile s.file → Did 0 s s
unfolding scatter
Did-none s file = record {
  keeps = record {
    file = file;
    size = refl;
    kind = refl;
    nblocks = refl;
    lock = refl;
    rw_lem = refl;
  };
  adv = record {
    offset = omega arith;
    resid = omega arith;
    total_lem = omega arith;
    addrs = λ i h. let e : i ≡ 0 + i = omega arith in ap (addr s.uio.iov) e;
    rw_lem = refl;
    segflg = refl;
  };
  bytes = none_moved s.uio.rw;
}
  where
    none_moved : (dir : UioRw) → Bytes dir 0 s s
    none_moved uio_read = (λ o h. refl, refl)
    none_moved uio_write = (λ o h. let e : covers 0 s o ≡ false = ground arith in rw e, refl)
