-- ===== src/Httpserver/Routing/Tests.antt =====
-- Tests of the router as a handler on concrete values, and its theorem at them.
use wbsv.Common.{[], ◌∷◌, codes}
use wbsv.Httpserver.App.{AppHandler, default_app_handler}
use wbsv.Httpserver.Router.Dispatch.{Router}
use wbsv.Httpserver.Router.{empty_node}

abbrev home_router : Router AppHandler
home_router = record {
  routes = (codes "/a", (codes "GET", default_app_handler) ∷ []) ∷ [];
  param_root = empty_node;
}
