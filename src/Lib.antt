-- ===== src/Lib.antt =====
-- koko: the Go programs of this repository, and what holds of them.
--
-- The repository has four of them, and each has a subtree here:
--
-- - go-web, a service for user accounts with verification codes by text message (Web);
-- - nginx-deploy and operator, two Kubernetes operators (K8s.Nginx and K8s.Prom);
-- - Automation-IP-Handle, which updates a MySQL table from a file of names (Automation).
--
-- Base has the shared names, Go what the programs use of Go's own library: strings as lists of
-- bytes (Go.Text), strconv.Atoi (Go.Strconv), the format %06v (Go.Fmt), bufio.Scanner and
-- strings.TrimSpace (Go.Lines). Ini stands for a file read by gopkg.in/ini.v1.
--
-- How the code is read. A function of the source is a function here, in snake case. Package
-- variables are the fields of a state that is passed along, and a function that can panic returns
-- `panic` with the state as it then is. What is not the program's is a parameter: the database,
-- Redis, the SMS service and the random source are `Services`, the API server is `Cluster`, the
-- MySQL server of Automation-IP-Handle is `Database` or `Server`, gorm and gin at the start of go-web
-- are `Frameworks`. Their answers are functions of all calls made
-- before, so they may fail, forget or change at any time; a theorem that needs more says so. The
-- calls are kept newest first. Prints and logs are left out.
--
-- - Web.Errmsg: go-web/utils/errmsg/errmsg.go (GetErr).
-- - Web.Setting: go-web/utils/setting.go (Init and the Load functions).
-- - Web.World: the state and the services; the types of go-web/model.
-- - Web.Model.Redis: go-web/model/Db.go (RedisInit, PoolGet) and Code_Memche.go (MessageCodeSave,
--   MessageCodeCheck), with the connections that are taken and closed.
-- - Web.Model.Pools: the same functions one PoolGet, one command and one Close at a time, over every
--   pool that RedisInit has made, with calls that interleave.
-- - Web.Model.Message: go-web/model/Message.go, ReturnMessage.go and ChangePass.go.
-- - Web.Model.User: go-web/model/User.go. Web.Model.Tables: the structs that become tables (User.go,
--   Article.go, Category.go, ReturnMessage.go), with their tags; Go.Tags looks into these.
-- - Web.Api: go-web/api/v1/user.go and change_pass.go, one function for each handler; article.go in
--   Web.Api.Articles.
-- - Web.Router: go-web/routers/routers.go, and a server over a list of requests, one at a time.
-- - Web.Concurrent: the handlers of go-web/api/v1 in stages, and servers on which they interleave.
-- - Web.Program: go-web/main.go, InitDb and GetDB of go-web/model/Db.go, and the start of the server
--   in go-web/routers/routers.go.
-- - K8s.Types, K8s.Client: what the operators use of Kubernetes' API and of its client.
-- - K8s.Nginx: nginx-deploy/api/v1/ngloy_types.go and nginx-deploy/controllers/ngloy_controller.go
--   (Reconcile, newDeploy, newContainers, newService). K8s.Nginx.Queue: the reconciles of many keys, one
--   after another.
-- - K8s.Prom: operator/api/v1/prom_types.go and operator/controllers/prom_controller.go, likewise.
-- - K8s.Start: nginx-deploy/main.go and operator/main.go, and SetupWithManager of both controllers.
-- - K8s.Heap: memory as cells, and copies that are deep by an interface, from which those of pointers,
--   slices and structs are built. K8s.Nginx.DeepCopy and K8s.Prom.DeepCopy: the functions of
--   nginx-deploy/api/v1/zz_generated.deepcopy.go and operator/api/v1/zz_generated.deepcopy.go.
-- - K8s.Registration: groupversion_info.go of both operators, and what their types' init registers.
-- - Automation.Permission: Automation-IP-Handle/iph/ip-permission.go (Get_DB, Connect, Get_IP,
--   Update).
-- - Automation.Command: Automation-IP-Handle/main.go.
-- - Automation.Revice: Automation-IP-Handle/ip-permission-revice-1.go, two goroutines and a channel
--   as a step relation.
-- - Automation.Sequential: Automation-IP-Handle/ip-permission-revice-2.go, the functions of
--   ip-permission.go again, under an empty main.
-- - Automation.Channel: Start and Get_IP of Automation-IP-Handle/iph/ip-not.go, any number of
--   goroutines and a channel of three names, likewise; Automation.Channel.Insert: its Insert. The file
--   does not compile; what it is read with stands in Automation/Channel.antt.
--
-- How the parts interact. In go-web the router hands a request to a handler, the handler calls the
-- model, and the model calls the services; the package variables `user` and `_pool` live from one
-- request to the next. In the operators a reconcile reads and writes through the client alone. In
-- Automation-IP-Handle `Connect` opens the database, `Get_IP` reads the lines and `Update` runs one
-- transaction for each.
--
-- Bounds and fuel. A size of 64 bits is written out where the source computes with it (`atoi`, the
-- offset of a page). Loops are structural on the list of requests, ports or lines, and `scan_lines`
-- on the bytes of the file. The one definition on fuel is Go.Fmt.decimal, with 20 for the 20 digits
-- that a number of 64 bits has at most. The scanner gives up at a line of 65536 bytes, as bufio's
-- does. The memory of the deep copies has no bound, and addresses are handed out upwards. A request
-- of Web.Concurrent takes eight turns at most.
--
-- Not modelled: go-web/model/Db-bak.go (a comment), requests of go-web that interleave within one
-- call of package model, but for those on the Redis pool (Web.Model.Pools), reconciles of one
-- operator at the same time (controller-runtime runs one at a time), the operators' test suites,
-- GetTime of Automation-IP-Handle/iph/ip-not.go (the clock), the Python agent and the YAML files.
pub mod Base
pub mod Go
pub mod Ini
pub mod Web
pub mod K8s
pub mod Automation
