-- ===== src/MapReduce/System/Worked.antt =====
-- Mit6824/lab1/worker.go: the steps of the workers in a job.
use mathlib.Core.List.{Memᴰ}
use cslearning.Prelude.{
  ℕ, ◌<◌, ◌≡◌, sym, ap, subst, ◌∙◌, Bool, true, some, List, [], ◌∷◌, OnReturn-elim, done, take,
  replicate,
}
use cslearning.MapReduce.Messages.{Args, Reply, wanned}
use cslearning.MapReduce.Worker.{Bytes, KeyValue, Disk, MapIo, work, emit, rename_all}
use cslearning.MapReduce.Worker.Job.{Sorts}
use cslearning.MapReduce.System.{Job, System, blank_args}
use cslearning.MapReduce.System.Mapping.{Encodes}
use cslearning.MapReduce.System.Filling.{some-Fills}
use cslearning.MapReduce.System.Listed.{Every_imp}
use cslearning.MapReduce.System.Invariant.{Keeps, GoodReply, GoodArgs, Inv}
use cslearning.MapReduce.System.Results.{Result, work-Result, own_pairs, Fills-Keeps}

module _ (job : Job) (sorts : Sorts job.sort) (above : 0 < job.n_reduce) where
  disk-Inv :
      (s : System) (d : Disk) → Inv job s → Keeps job s.disk d → Inv job (record s { disk = d })
  disk-Inv s d inv keeps = record {
    run = inv.run;
    held = λ r m. reply_kept r (inv.held r m);
    reports = λ a m well. args_kept a (inv.reports a m well);
    mapped =
        Every_imp _ _ s.coordinator.map_tasks (λ t h e j lt. keeps.mids t.task_id j (h e j lt))
          inv.mapped;
    made =
        Every_imp _ _ s.coordinator.reduce_tasks (λ t h e. keeps.outs t.reduce_id (h e)) inv.made;
  }
    where
      reply_kept : (r : Reply) → GoodReply job s.disk r → GoodReply job d r
      reply_kept r good = record {
        of_map = good.of_map;
        of_reduce = λ h.
            ((good.of_reduce h).0, λ i lt. keeps.mids i r.reduce_id ((good.of_reduce h).1 i lt));
      }

      args_kept : (a : Args) → GoodArgs job s.disk a → GoodArgs job d a
      args_kept a good = record {
        of_map = λ h j lt. keeps.mids a.map_id j (good.of_map h j lt);
        of_reduce = λ h. keeps.outs a.reduce_id (good.of_reduce h);
      }

  pub works-Inv :
      (s : System) (reply : Reply) (io : MapIo) (calls : Bool × Bool) (args : Args) (d : Disk)
      → Inv job s
      → Memᴰ reply s.held
      → Encodes job.written io.encodes
      → ((content : Bytes) → io.content ≡ some content → content ≡ job.inputs reply.filename)
      → work job.mapf job.reducef job.sort io calls reply (wanned blank_args) s.disk
        ≡ done (args, d)
      → Inv job (record s { disk = d; reports = args ∷ s.reports })
  works-Inv s reply io calls args d inv m exact reads e =
      let (keeps, good) =
        OnReturn-elim (Result job s.disk) _ _
          (work-Result job sorts above reply io calls s.disk (inv.held reply m) exact reads) e in
      let later = disk-Inv s d inv keeps in
      record {
        run = later.run;
        held = later.held;
        reports = λ a n. elim n [
          | Memᴰ.head q ↦ λ well.
              subst (GoodArgs job d) (sym q)
                (good (ap (λ (x : Args). x.execute_type) (sym q) ∙ well))
          | Memᴰ.tail n' ↦ later.reports a n'
        ];
        mapped = later.mapped;
        made = later.made;
      }

  pub stops-Inv :
      (s : System) (reply : Reply) (k : ℕ) (made : List (List KeyValue)) (d : Disk)
      → Inv job s
      → Memᴰ reply s.held
      → reply.flag ≡ 1
      → emit
          (λ kv. some (job.written kv))
          reply.n_reduce
          (job.mapf reply.filename (job.inputs reply.filename))
          (replicate reply.n_reduce [])
        ≡ done (some made)
      → rename_all (λ i. true) reply.map_id 0 (take k made) s.disk ≡ done d
      → Inv job (record s { disk = d })
  stops-Inv s reply k made d inv m mapping e r =
      let (n, own) = (inv.held reply m).of_map mapping in
      let kva = job.mapf reply.filename (job.inputs reply.filename) in
      let (fills, same) =
        some-Fills job.written job.n_reduce reply.map_id k kva made s.disk d above
          (subst (λ x. emit (λ kv. some (job.written kv)) x kva (replicate x []) ≡ done (some made))
            n e)
          r in
      disk-Inv s d inv
        (Fills-Keeps job reply.map_id kva s.disk d (own_pairs job sorts above reply own) fills same)
