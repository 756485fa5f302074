-- ===== src/Fs/Bio/Getting.antt =====
-- `bget` of src/fs/bio.c keeps the invariant.
use mathlib.Core.Path.{subst}
use lkc.Base.{
  ℕ, ◌+◌, ◌<◌, ◌≡◌, refl, sym, inl, inr, false, some, ◌==◌, update, update_self, update-ne, arith,
}
use lkc.Fs.Bio.{Bcache, set_buf, bget}
use lkc.Fs.Bio.Coherence.{Blocks, Coherent}
use lkc.Fs.Bio.Touching.{Settled, becomes-Coherent}
use lkc.Fs.Bio.Setting.{set_blocks-Coherent, dirty_nowhere}
use lkc.Fs.Bio.Lookup.{Found, bget_lem}
use lkc.Fs.Bio.Steps.{get_step}

pub get_step-Coherent :
    (s : Blocks) (device blockno : ℕ) (r : Bcache × ℕ)
    → 0 < device
    → bget device blockno s.cache ≡ some r
    → Coherent device s
    → Coherent device (get_step s r)
get_step-Coherent s device blockno r p h c = got (bget_lem device blockno s.cache r h)
  where
    waits :
        (i k : ℕ)
        → (i == k) ≡ false
        → (update s.waiting i (s.waiting i + 1) k ≡ s.waiting k) × (s.leaving k ≡ s.leaving k)
    waits i k z = (ground arith, refl)

    got : Found device blockno s.cache r → Coherent device (get_step s r)
    got (e, inl (n, f)) =
        let i = r.1 in
        let b = s.cache.buf i in
        let so = c.sound i e in
        subst (λ x. Coherent device (get_step s (x, i))) (sym f)
          (set_blocks-Coherent s i (record b { refcnt = b.refcnt + 1 }) s.disk _ s.leaving e c
            (waits i) (refl, refl)
            (record {
              counted = ground (arith, so.counted);
              dirty_held = so.dirty_held;
              held_valid = so.held_valid;
              one_device = λ q. n.0;
              unused = λ q. absurd (omega (arith, n.0));
              same = so.same;
            })
            (λ n j q u. inr (u, refl)))
    got (e, inr (n, z, f)) =
        let i = r.1 in
        let b = s.cache.buf i in
        let so = c.sound i e in
        let b' = record b { dev = device; blockno = blockno; valid = false; refcnt = 1 } in
        subst (λ x. Coherent device (get_step s (x, i))) (sym f)
          (becomes-Coherent i s (get_step s (set_buf s.cache i b', i)) b'
            (update_self s.cache.buf i i b' refl) e c
            (record {
              list = λ k. refl;
              others =
                  λ k y. (update-ne s.cache.buf i k b' (λ w. ground arith), (waits i k y).0, refl);
            })
            (λ k ek y v j q. refl)
            (record {
              counted = ground (arith, so.counted);
              dirty_held = so.dirty_held;
              held_valid = λ q. ground (arith, so.counted);
              one_device = λ q. refl;
              unused = λ q. ground arith;
              same = λ v. ground arith;
            })
            (λ k ek y q m. n k ek m) settled)
      where
        settled : Settled s s.disk s.content r.1 (record (s.cache.buf r.1) {
          dev = device;
          blockno = blockno;
          valid = false;
          refcnt = 1;
        })
        settled m j q u v = c.clean m j q (
            dirty_nowhere s r.1 m
              (λ g. ground (arith, (c.sound r.1 e).dirty_held, (c.sound r.1 e).counted)) v)
